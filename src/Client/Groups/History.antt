-- ===== src/Client/Groups/History.antt =====
-- msg-server/client/chatGroup.go: `C2SChatGroupLastMsgTimeStamp`, `C2SGetOfflineGroupChatMsg` and
-- `C2SWithdrawGroupMessage`, with the branch of `withDrawMsg` (privateChat.go) for groups.
pub mod Withdrawal
pub mod Keeps
use instant_message.Prelude.{
  ℕ, ◌+◌, ◌%◌, ◌^◌, ◌-◌, Bool, true, false, not, ◌&&◌, ◌==◌, Option, none, some, is_some, List, [],
  ◌∷◌, signed_ltb,
}
use instant_message.Client.{get_chat_group_last_msg_timestamp, set_chat_group_last_msg_timestamp}
use instant_message.Client.GroupMessage.{
  GroupMessage, exists_group_info, load_group_chats_after, load_group_chats_at, store_group_chat,
  unmarshal_offline, offline_group_id_illegal, offline_get_failed, unmarshal_withdraw_group,
  withdraw_group_fail, offline_group_chat, withdraw_group_ack, chat_event,
}
use instant_message.Client.Session.{
  Env, Session, M, ◌>>=◌, ◌>>◌, pure, stop, when, gets, modify, ask, read_now, reject, run,
  group_error, group_call, withdrawer_is_not_sender,
}
use instant_message.Client.Groups.{group_reject, answer, publish_group}

-- The messages that unmarshal.
abbrev pub readable : List (Option GroupMessage) → List GroupMessage
readable [] = []
readable (none ∷ ms) = readable ms
readable (some m ∷ ms) = m ∷ readable ms

abbrev pub single_group : Option (List (Option GroupMessage)) → Option GroupMessage
single_group (some (m ∷ [])) = m
single_group _ = none

abbrev pub withdrawn_group : GroupMessage → GroupMessage
withdrawn_group m = record m { with_draw = true }

module _ (e : Env) where
  -- Of a group that the client has no time stamp of, nothing is kept.
  keep_timestamp : (group reported now : ℕ) → Option ℕ → M (Unit {0}) (Unit {0})
  unfolding set_chat_group_last_msg_timestamp
  keep_timestamp group reported now none = pure tt
  keep_timestamp group reported now (some last) = do
    when (not (signed_ltb reported (now + 10000000) && signed_ltb last reported)) (stop tt)
    modify (set_chat_group_last_msg_timestamp group reported)

  unfoldable pub c2s_chat_group_last_msg_time_stamp :
      (parsed : Bool) → (group reported : ℕ) → Session → Session
  unfolding keep_timestamp get_chat_group_last_msg_timestamp
  c2s_chat_group_last_msg_time_stamp parsed group reported = run do
    when (not parsed) (stop tt)
    now ← read_now e
    last ← gets (get_chat_group_last_msg_timestamp group)
    keep_timestamp group reported now last

  answer_offline_group :
      (group msg_timestamp : ℕ) → Option (List (Option GroupMessage)) → M (Unit {0}) (Unit {0})
  answer_offline_group group msg_timestamp none =
      reject (group_error offline_get_failed) msg_timestamp
  answer_offline_group group msg_timestamp (some ms) =
      answer (offline_group_chat group msg_timestamp (readable ms))

  -- The messages later than ten seconds before the last one that the client says it has.
  pub c2s_get_offline_group_chat_msg :
      (parsed : Bool) → (group last msg_timestamp : ℕ) → Session → Session
  unfolding answer_offline_group
  c2s_get_offline_group_chat_msg parsed group last msg_timestamp = run do
    when (not parsed) (group_reject unmarshal_offline)
    exists ← ask e.ok (group_call (exists_group_info group))
    when (not exists) (reject (group_error offline_group_id_illegal) msg_timestamp)
    ms ←
        ask e.group_chats
          (group_call (load_group_chats_after group ((last + (2 ^ 64 - 10000000)) % 2 ^ 64)))
    answer_offline_group group msg_timestamp ms

  store_withdrawn_group : (group : ℕ) → Option GroupMessage → M (Unit {0}) (Option GroupMessage)
  store_withdrawn_group group none = group_reject withdraw_group_fail
  store_withdrawn_group group (some m) = do
    let w = withdrawn_group m
    when (not (e.marshal_group_chat w)) (group_reject withdraw_group_fail)
    now ← read_now e
    stored ← ask e.ok (group_call (store_group_chat group w now))
    when (not stored) (group_reject withdraw_group_fail)
    pure (some w)

  -- `withDrawMsg` with the receiver 0, as `C2SWithdrawGroupMessage` calls it: a group of 0 withdraws
  -- nothing. Each error of it is answered by `C2SWithdrawGroupMessage` with the same code.
  with_draw_group_msg : (ts group : ℕ) → M (Unit {0}) (Option GroupMessage)
  unfolding store_withdrawn_group
  with_draw_group_msg ts group = do
    when (group == 0) (group_reject withdraw_group_fail)
    records ← ask e.group_chats (group_call (load_group_chats_at group ts))
    store_withdrawn_group group (single_group records)

  announce_withdrawn_group : (ts : ℕ) → Option GroupMessage → M (Unit {0}) (Unit {0})
  announce_withdrawn_group ts none = group_reject withdraw_group_fail
  announce_withdrawn_group ts (some w) = do
    me ← gets (λ c. c.account_id)
    when (not (me == w.sender_id)) (reject withdrawer_is_not_sender 0)
    answer (withdraw_group_ack ts)
    publish_group (chat_event w)

  pub c2s_withdraw_group_message : (parsed : Bool) → (ts group : ℕ) → Session → Session
  unfolding with_draw_group_msg announce_withdrawn_group
  c2s_withdraw_group_message parsed ts group = run do
    when (not parsed) (group_reject unmarshal_withdraw_group)
    w ← with_draw_group_msg ts group
    announce_withdrawn_group ts w

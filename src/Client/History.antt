-- ===== src/Client/History.antt =====
-- msg-server/client/privateChat.go: the time stamp of the last message received, the messages that
-- came while the user was offline, the withdrawal of a message, and a push by the user.
pub mod Withdrawal
pub mod Offline
pub mod Keeps
use instant_message.Prelude.{
  ℕ, ◌+◌, Bool, true, false, not, ◌&&◌, Option, none, some, List, [], ◌∷◌, ◌==◌, signed_ltb,
  if◌then◌else◌,
}
use instant_message.Client.{is_friend, set_last_msg_timestamp}
use instant_message.Client.Message.{ChatMessage, PushInfo}
use instant_message.Client.Session.{
  Env, Session, M, ◌>>=◌, ◌>>◌, pure, stop, when, gets, modify, call, ask, read_now, reject, run,
  send, mq, publish, is_set_member, friend_set, store_chat, load_chats_after, load_chats_at,
  user_online, get_push_info, push, mq_private_chat, last_msg_timestamp_event, withdraw_event,
  offline_private_chat, withdraw_ack, huan_xin_ack, unmarshal_withdraw, withdraw_fail,
  withdrawer_is_not_sender, unmarshal_huan_xin, huan_xin_is_not_friend, huan_xin_not_his_friend,
  huan_xin_no_push_info, huan_xin_is_not_android,
}

-- The messages for `me` among those read, but one that has the time stamp `last`. What does not
-- unmarshal is left out.
unfoldable pub undelivered : (me last : ℕ) → List (Option ChatMessage) → List ChatMessage
undelivered me last [] = []
undelivered me last (none ∷ ms) = undelivered me last ms
undelivered me last (some m ∷ ms) =
    let rest = undelivered me last ms in
    if not (m.srv_time_stamp == last) && (m.receiver_id == me) then m ∷ rest else rest

-- The one record at a time stamp; none where the query fails, or finds no or several records, or
-- where the record does not unmarshal.
abbrev pub single : Option (List (Option ChatMessage)) → Option ChatMessage
single (some (m ∷ [])) = m
single _ = none

abbrev pub withdrawn : ChatMessage → ChatMessage
withdrawn m = record m { with_draw = true }

module _ (e : Env) where
  pub c2s_last_msg_timestamp : (long_enough parsed : Bool) → (reported : ℕ) → Session → Session
  unfolding set_last_msg_timestamp
  c2s_last_msg_timestamp long_enough parsed reported = run do
    when (not long_enough) (stop tt)
    when (not parsed) (stop tt)
    now ← read_now e
    last ← gets (λ c. c.last_msg_timestamp)
    when (not (signed_ltb reported (now + 10000000) && signed_ltb last reported)) (stop tt)
    modify (set_last_msg_timestamp reported)
    call (publish (last_msg_timestamp_event reported))

  answer_offline : (last : ℕ) → Option (List (Option ChatMessage)) → M (Unit {0}) (Unit {0})
  unfolding undelivered
  answer_offline last none = stop tt
  answer_offline last (some ms) = do
    now ← read_now e
    me ← gets (λ c. c.account_id)
    call (send (offline_private_chat now (undelivered me last ms)))

  pub c2s_get_offline_private_chat_msg : (parsed : Bool) → Session → Session
  unfolding answer_offline
  c2s_get_offline_private_chat_msg parsed = run do
    when (not parsed) (stop tt)
    last ← gets (λ c. c.last_msg_timestamp)
    me ← gets (λ c. c.account_id)
    ms ← ask e.chats (load_chats_after me last)
    answer_offline last ms

  -- The copy of the record with the mark, once both stores have succeeded.
  store_withdrawn : (receiver : ℕ) → Option ChatMessage → M (Unit {0}) (Option ChatMessage)
  store_withdrawn receiver none = pure none
  store_withdrawn receiver (some m) = do
    let w = withdrawn m
    when (not (e.marshal_chat w)) (reject withdraw_fail 0)
    ts ← read_now e
    me ← gets (λ c. c.account_id)
    own ← ask e.ok (store_chat me w ts)
    when (not own) (reject withdraw_fail 0)
    his ← ask e.ok (store_chat receiver w ts)
    when (not his) (reject withdraw_fail 0)
    pure (some w)

  -- `withDrawMsg` with the group 0, as `C2SWithdrawMessage` calls it: a receiver of 0 withdraws
  -- nothing. Each error of it is answered by `C2SWithdrawMessage` with the same code.
  with_draw_msg : (ts receiver : ℕ) → M (Unit {0}) (Option ChatMessage)
  unfolding store_withdrawn
  with_draw_msg ts receiver = do
    when (receiver == 0) (reject withdraw_fail 0)
    me ← gets (λ c. c.account_id)
    records ← ask e.chats (load_chats_at me ts)
    store_withdrawn receiver (single records)

  announce_withdrawn : (receiver : ℕ) → Option ChatMessage → M (Unit {0}) (Unit {0})
  announce_withdrawn receiver none = reject withdraw_fail 0
  announce_withdrawn receiver (some w) = do
    me ← gets (λ c. c.account_id)
    when (not (me == w.sender_id)) (reject withdrawer_is_not_sender 0)
    call (send (withdraw_ack w.srv_time_stamp))
    online ← ask e.ok (user_online receiver)
    when online (call (mq w.receiver_id (mq_private_chat w)))
    call (publish (withdraw_event (withdraw_ack w.srv_time_stamp)))

  pub c2s_withdraw_message : (parsed : Bool) → (ts receiver : ℕ) → Session → Session
  unfolding with_draw_msg announce_withdrawn
  c2s_withdraw_message parsed ts receiver = run do
    when (not parsed) (reject unmarshal_withdraw 0)
    w ← with_draw_msg ts receiver
    announce_withdrawn receiver w

  push_android : (friend : ℕ) → Option PushInfo → M (Unit {0}) (Unit {0})
  push_android friend none = reject huan_xin_no_push_info 0
  push_android friend (some info) = do
    when info.is_ios (reject huan_xin_is_not_android 0)
    online ← ask e.ok (user_online friend)
    when (not online) (call (push info))
    call (send huan_xin_ack)

  -- Of the query whether the user is in the friend's set only the error is looked at.
  pub c2s_huan_xin_push : (parsed : Bool) → (friend : ℕ) → Session → Session
  unfolding push_android
  c2s_huan_xin_push parsed friend = run do
    when (not parsed) (reject unmarshal_huan_xin 0)
    is_mine ← gets (λ c. is_friend c friend)
    when (not is_mine) (reject huan_xin_is_not_friend 0)
    me ← gets (λ c. c.account_id)
    no_error ← ask e.ok (is_set_member friend_set friend me)
    when (not no_error) (reject huan_xin_not_his_friend 0)
    info ← ask e.push_info (get_push_info friend)
    push_android friend info

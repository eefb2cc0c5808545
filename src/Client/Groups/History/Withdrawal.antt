-- ===== src/Client/Groups/History/Withdrawal.antt =====
-- What `C2SWithdrawGroupMessage` and `C2SChatGroupLastMsgTimeStamp` (chatGroup.go) store, pass on and keep.
use instant_message.Prelude.{
  ℕ, ◌+◌, ◌≡◌, ◌≢◌, Bool, true, false, ◌⊎◌, Option, none, some, List, [], ◌∷◌, arith, signed_ltb,
}
use instant_message.Prelude.GoMap.{lookup-insert}
use instant_message.Client.{
  Client, get_chat_group_last_msg_timestamp, set_chat_group_last_msg_timestamp,
}
use instant_message.Client.GroupMessage.{
  GroupMessage, load_group_chats_at, store_group_chat, chat_event,
}
use instant_message.Client.Session.{
  Call, Env, start, send, error_code, withdrawer_is_not_sender, publish, group_event, group_call,
  read_clock,
}
use instant_message.Client.Requests.Filing.{replies}
use instant_message.Client.Groups.History.{
  c2s_withdraw_group_message, c2s_chat_group_last_msg_time_stamp, single_group, withdrawn_group,
}

-- What is passed on to the members is a withdrawn message of `me`.
abbrev pub GroupWithdrawn : (me : ℕ) → List Call → Type 0
GroupWithdrawn me [] = Unit
GroupWithdrawn me (publish (group_event (chat_event m)) ∷ cs) =
    (m.sender_id ≡ me) × (m.with_draw ≡ true) × GroupWithdrawn me cs
GroupWithdrawn me (c ∷ cs) = GroupWithdrawn me cs

module _ (e : Env) (parsed : Bool) (ts group : ℕ) (c : Client) where
  -- Every withdrawal of a group message is answered with exactly one message, and what is passed on to the
  -- members is a message of the user's own, marked as withdrawn.
  pub withdraw_group_answers :
      let s = c2s_withdraw_group_message e parsed ts group (start c) in
      (replies s.trace ≡ 1) × GroupWithdrawn c.account_id s.trace
  unfolding c2s_withdraw_group_message
  withdraw_group_answers = ground arith

module _ (e : Env) (ts group : ℕ) (c : Client) (m : GroupMessage) where
  -- A withdrawal of another member's message is stored before the sender is looked at: where the record
  -- is read and the store succeeds, the marked copy stands in the history of the group, under the current
  -- time, and only then the user is told that the message is not the user's.
  pub withdraw_group_stores_first :
      (single_group (e.group_chats [] (group_call (load_group_chats_at group ts))) ≡ some m)
      → e.marshal_group_chat (withdrawn_group m) ≡ true
      → ((t : List Call) (at : ℕ)
          → e.ok t (group_call (store_group_chat group (withdrawn_group m) at)) ≡ true)
      → group ≢ 0
      → c.account_id ≢ m.sender_id
      → (c2s_withdraw_group_message e true ts group (start c)).trace ≡ (
          let asked = group_call (load_group_chats_at group ts) ∷ [] in
          send (error_code withdrawer_is_not_sender 0)
          ∷ group_call (store_group_chat group (withdrawn_group m) (e.now asked))
          ∷ read_clock
          ∷ asked)
  unfolding c2s_withdraw_group_message
  withdraw_group_stores_first found marshals stored named other =
      let asked = group_call (load_group_chats_at group ts) ∷ [] in
      ground (arith, stored (read_clock ∷ asked) (e.now asked))

-- There is a time stamp, and it is earlier, both read as signed numbers.
abbrev pub is_below : Option ℕ → ℕ → Bool
is_below none reported = false
is_below (some last) reported = signed_ltb last reported

module _ (e : Env) (parsed : Bool) (group reported k : ℕ) (c : Client) where
  -- The time stamp of a group changes only to one that is reported, later than the one kept before and
  -- earlier than ten seconds from now, all read as signed numbers; a group without one gets none, and
  -- every other group keeps its own.
  pub group_timestamp_bounds :
      let d = (c2s_chat_group_last_msg_time_stamp e parsed group reported (start c)).client in
      let before = get_chat_group_last_msg_timestamp k c in
      let after = get_chat_group_last_msg_timestamp k d in
      (after ≡ before)
      ⊎ ((group ≡ k)
          × (after ≡ some reported)
          × (signed_ltb reported (e.now [] + 10000000) ≡ true)
          × (is_below before reported ≡ true))
  unfolding c2s_chat_group_last_msg_time_stamp get_chat_group_last_msg_timestamp
      set_chat_group_last_msg_timestamp
  group_timestamp_bounds =
      ground (arith, lookup-insert group k reported c.chat_group_last_msg_timestamp)

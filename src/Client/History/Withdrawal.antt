-- ===== src/Client/History/Withdrawal.antt =====
-- What `C2SWithdrawMessage` and `C2SHuanXinPush` (privateChat.go) answer and store.
use instant_message.Prelude.{ℕ, ◌≡◌, ◌≢◌, Bool, true, some, List, [], ◌∷◌, arith}
use instant_message.Client.{Client}
use instant_message.Client.Message.{ChatMessage}
use instant_message.Client.Session.{
  Call, Env, start, send, mq, mq_private_chat, store_chat, load_chats_at, read_clock, error_code,
  withdrawer_is_not_sender,
}
use instant_message.Client.Requests.Filing.{replies}
use instant_message.Client.History.{c2s_withdraw_message, c2s_huan_xin_push, single, withdrawn}

-- The messages queued are withdrawn ones of `me`.
abbrev pub Withdrawn : (me : ℕ) → List Call → Type 0
Withdrawn me [] = Unit
Withdrawn me (mq who (mq_private_chat m) ∷ cs) =
    (m.sender_id ≡ me) × (who ≡ m.receiver_id) × (m.with_draw ≡ true) × Withdrawn me cs
Withdrawn me (c ∷ cs) = Withdrawn me cs

module _ (e : Env) (parsed : Bool) (ts receiver : ℕ) (c : Client) where
  -- Every withdrawal is answered with exactly one message, and what is queued for the receiver is a
  -- message of the user's own, marked as withdrawn.
  pub withdraw_message_answers :
      let s = c2s_withdraw_message e parsed ts receiver (start c) in
      (replies s.trace ≡ 1) × Withdrawn c.account_id s.trace
  unfolding c2s_withdraw_message
  withdraw_message_answers = ground arith

  -- Every push is answered with exactly one message.
  pub huan_xin_push_answers : replies (c2s_huan_xin_push e parsed receiver (start c)).trace ≡ 1
  unfolding c2s_huan_xin_push
  huan_xin_push_answers = ground arith

module _ (e : Env) (ts receiver : ℕ) (c : Client) (m : ChatMessage) where
  -- A withdrawal of another user's message is stored before the sender is looked at: where the record
  -- is read and both stores succeed, the marked copy stands in both users' histories, the receiver
  -- being whom the request names, and only then the user is told that the message is not the user's.
  pub withdraw_message_stores_first :
      (single (e.chats [] (load_chats_at c.account_id ts)) ≡ some m)
      → e.marshal_chat (withdrawn m) ≡ true
      → ((t : List Call) (who at : ℕ) → e.ok t (store_chat who (withdrawn m) at) ≡ true)
      → receiver ≢ 0
      → c.account_id ≢ m.sender_id
      → (c2s_withdraw_message e true ts receiver (start c)).trace ≡ (
          let now = e.now (load_chats_at c.account_id ts ∷ []) in
          send (error_code withdrawer_is_not_sender 0)
          ∷ store_chat receiver (withdrawn m) now
          ∷ store_chat c.account_id (withdrawn m) now
          ∷ read_clock
          ∷ load_chats_at c.account_id ts
          ∷ [])
  unfolding c2s_withdraw_message
  withdraw_message_stores_first found marshals stored named other =
      let asked = load_chats_at c.account_id ts ∷ [] in
      let own = store_chat c.account_id (withdrawn m) (e.now asked) in
      ground (
        arith,
        stored (read_clock ∷ asked) c.account_id (e.now asked),
        stored (own ∷ read_clock ∷ asked) receiver (e.now asked),
      )

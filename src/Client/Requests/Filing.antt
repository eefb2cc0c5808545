-- ===== src/Client/Requests/Filing.antt =====
-- What `C2SAddFriend` (friends.go) files, queues and answers.
use instant_message.Prelude.{
  ℕ, suc, ◌≡◌, ◌≢◌, Bool, true, false, List, [], ◌∷◌, Option, none, some, is_some, arith,
}
use instant_message.Client.{Client, is_friend}
use instant_message.Client.Session.{Call, Env, start, send, mq, mq_add_friend, add_friend_ack}
use instant_message.Client.Requests.{FriendMsg, c2s_add_friend}

-- How many messages the user is sent.
abbrev pub replies : List Call → ℕ
replies [] = 0
replies (send r ∷ cs) = suc (replies cs)
replies (c ∷ cs) = replies cs

abbrev pub acknowledged : List Call → Bool
acknowledged [] = false
acknowledged (send (add_friend_ack s r t) ∷ cs) = true
acknowledged (c ∷ cs) = acknowledged cs

-- The sender in whose name the request is queued for the receiver.
abbrev pub queued_for : ℕ → List Call → Option ℕ
queued_for to [] = none
queued_for to (mq who (mq_add_friend s r t n now) ∷ cs) = some s
queued_for to (c ∷ cs) = queued_for to cs

module _ (e : Env) (parsed : Bool) (req : FriendMsg) (c : Client) where
  -- Every friend request is answered with exactly one message, and the receiver is told of it exactly
  -- where that message is the acknowledgement.
  pub add_friend_answers :
      let s = c2s_add_friend e parsed req (start c) in
      (replies s.trace ≡ 1) × (acknowledged s.trace ≡ is_some (queued_for req.receiver_id s.trace))
  unfolding c2s_add_friend
  add_friend_answers = ground arith

  -- An acknowledged request reached the queue of the receiver in the name of the sender that the
  -- message claims, whoever sent it; the receiver is neither the user nor a friend of the user.
  pub add_friend_claimed_sender :
      acknowledged (c2s_add_friend e parsed req (start c)).trace ≡ true
      → (queued_for req.receiver_id (c2s_add_friend e parsed req (start c)).trace
          ≡ some req.sender_id)
        × (c.account_id ≢ req.receiver_id)
        × (is_friend c req.receiver_id ≡ false)
  unfolding c2s_add_friend
  add_friend_claimed_sender h = ground arith

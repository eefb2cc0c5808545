-- ===== src/Client/Chat/Sending.antt =====
-- What `C2SPrivateChat` (privateChat.go) answers, stores and passes on.
use instant_message.Prelude.{
  ℕ, suc, ◌≡◌, ◌≢◌, refl, ◌∙◌, Bool, true, false, not, ◌⊎◌, Option, none, some, List, [], ◌∷◌,
  arith, if◌then◌else◌,
}
use instant_message.Online.{positive}
use instant_message.Client.{Client, is_friend}
use instant_message.Client.Message.{ChatMessage, is_known}
use instant_message.Client.Session.{
  Call, Env, Flow, next, done, Session, start, send, mq, mq_private_chat, publish,
  private_chat_event, store_chat, is_set_member, friend_set, agent_set, error_code,
  receiver_is_not_friend, final,
}
use instant_message.Client.Agents.{
  get_agent_and_member, get_agent_and_member-quiet, get_agent_and_member-SameUser, SameUser,
  is_related,
}
use instant_message.Client.Requests.Filing.{replies}
use instant_message.Client.Chat.{c2s_private_chat, check_relation, sign_and_send}

replies-lookup :
    (e : Env) (s : Session) → replies (get_agent_and_member e s).trace ≡ replies s.trace
replies-lookup e s =
    get_agent_and_member-quiet (λ t. replies t ≡ replies s.trace) (λ t id h. (h, h, h, h)) e s refl

-- A check either goes on, without a word to the user, or returns after one message.
abbrev Checked : Session → Flow (Unit {0}) (Unit {0}) → Type 0
Checked s (next a t) = SameUser s.client t.client × (replies t.trace ≡ replies s.trace)
Checked s (done a t) = replies t.trace ≡ suc (replies s.trace)

module _ (e : Env) (receiver : ℕ) (s : Session) where
  unfoldable pub looked : Session
  looked = get_agent_and_member e s

  -- The session when the receiver's redis sets have been asked, from `s` and from `looked`.
  unfoldable pub asked : Session → Session
  asked t = record t {
    trace =
        is_set_member agent_set receiver s.client.account_id
        ∷ is_set_member friend_set receiver s.client.account_id
        ∷ t.trace;
  }

  check_relation-Checked : Checked s (check_relation e receiver s)
  unfolding check_relation looked asked
  check_relation-Checked = ground (
    arith,
    replies-lookup e s,
    replies-lookup e (asked s),
    replies-lookup e (asked looked),
    get_agent_and_member-SameUser e s,
    get_agent_and_member-SameUser e (asked s),
    get_agent_and_member-SameUser e (asked looked),
  )

module _ (e : Env) where
  sign_and_send-Answered :
      (m : ChatMessage) (time : ℕ) (s : Session)
      → replies (final (sign_and_send e m time s)).trace ≡ suc (replies s.trace)
  unfolding sign_and_send
  sign_and_send-Answered m time s = ground arith

module _ (e : Env) (m : ChatMessage) (time : ℕ) (c : Client) where
  -- Every private message that is unmarshalled is answered with exactly one message to its sender, be
  -- it an error or the acknowledgement.
  pub private_chat_answers : replies (c2s_private_chat e true (some m) time (start c)).trace ≡ 1
  unfolding c2s_private_chat
  private_chat_answers =
      ground
        (arith, check_relation-Checked e m.receiver_id (start c), sign_and_send-Answered e m time)

-- What is stored of a message, queued or passed to the user's other terminal is in the name of `me`.
abbrev pub Signed : (me to : ℕ) → List Call → Type 0
Signed me to [] = Unit
Signed me to (store_chat owner m ts ∷ cs) =
    (m.sender_id ≡ me)
    × (m.receiver_id ≡ to)
    × (is_known m.msg_type ≡ true)
    × ((owner ≡ me) ⊎ (owner ≡ to))
    × Signed me to cs
Signed me to (mq who (mq_private_chat m) ∷ cs) =
    (m.sender_id ≡ me)
    × (m.receiver_id ≡ to)
    × (is_known m.msg_type ≡ true)
    × (who ≡ to)
    × Signed me to cs
Signed me to (publish (private_chat_event m) ∷ cs) =
    (m.sender_id ≡ me) × (m.receiver_id ≡ to) × (is_known m.msg_type ≡ true) × Signed me to cs
Signed me to (c ∷ cs) = Signed me to cs

module _ (e : Env) where
  sign_and_send-Signed :
      (m : ChatMessage) (time : ℕ) (s : Session)
      → Signed s.client.account_id m.receiver_id s.trace
      → Signed s.client.account_id m.receiver_id (final (sign_and_send e m time s)).trace
  unfolding sign_and_send
  sign_and_send-Signed m time s h = ground arith

abbrev KeepsSigned : (me to : ℕ) → Flow (Unit {0}) (Unit {0}) → Type 0
KeepsSigned me to (next a t) = (t.client.account_id ≡ me) × Signed me to t.trace
KeepsSigned me to (done a t) = Signed me to t.trace

module _ (e : Env) (me to : ℕ) (s : Session) where
  lookup-Signed : Signed me to s.trace → Signed me to (get_agent_and_member e s).trace
  lookup-Signed h = get_agent_and_member-quiet (Signed me to) (λ t id h. (h, h, h, h)) e s h

module _ (e : Env) (to : ℕ) (s : Session) where
  check_relation-Signed :
      Signed s.client.account_id to s.trace
      → KeepsSigned s.client.account_id to (check_relation e to s)
  unfolding check_relation looked asked
  check_relation-Signed h = ground (
    arith,
    lookup-Signed e s.client.account_id to s,
    lookup-Signed e s.client.account_id to (asked e to s s),
    lookup-Signed e s.client.account_id to (asked e to s (looked e to s)),
    get_agent_and_member-SameUser e s,
    get_agent_and_member-SameUser e (asked e to s s),
    get_agent_and_member-SameUser e (asked e to s (looked e to s)),
  )

module _ (e : Env) (m : ChatMessage) (time : ℕ) (c : Client) where
  -- Whatever the message claims, the copies of it that are stored, queued for the receiver and passed to
  -- the user's other terminal name the user as the sender, are of a known type, and are filed under the
  -- two users of the conversation only.
  pub private_chat_signs :
      Signed c.account_id m.receiver_id (c2s_private_chat e true (some m) time (start c)).trace
  unfolding c2s_private_chat
  private_chat_signs =
      ground (arith, check_relation-Signed e m.receiver_id (start c), sign_and_send-Signed e m time)

  -- A message to a user who is no friend, no agent and no member of the sender's is refused: beyond
  -- the look-up of agent and members, all that happens is one error message.
  pub private_chat_stranger :
      (positive m.receiver_id ≡ true)
      → is_friend c m.receiver_id ≡ false
      → is_related e m.receiver_id (get_agent_and_member e (start c)).client ≡ false
      → c2s_private_chat e true (some m) time (start c) ≡ (
          let s = get_agent_and_member e (start c) in
          record s { trace = send (error_code receiver_is_not_friend 0) ∷ s.trace })
  unfolding c2s_private_chat check_relation is_friend get_agent_and_member
      instant_message.Prelude.GoMap.lookup
  private_chat_stranger p f r = simp (p, f, r)

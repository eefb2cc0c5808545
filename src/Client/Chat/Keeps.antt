-- ===== src/Client/Chat/Keeps.antt =====
-- Sending a message keeps the contacts and the black list.
use instant_message.Prelude.{ℕ, ◌≡◌, refl, Bool, true, false, Option, none, some, arith}
use instant_message.Client.Message.{ChatMessage}
use instant_message.Client.Session.{Env, Flow, next, done, M, final, Session}
use instant_message.Client.Agents.{get_agent_and_member-SameUser, SameUser}
use instant_message.Client.Chat.{c2s_private_chat, check_relation, sign_and_send}
use instant_message.Client.Chat.Sending.{looked, asked}
use instant_message.Client.Receiving.Keeps.{SameUser-IsValid}
use instant_message.Client.Keyed.{IsValid}

module _ (e : Env) (to : ℕ) (s : Session) where
  check_relation-SameUser : SameUser s.client (final (check_relation e to s)).client
  unfolding check_relation looked asked
  check_relation-SameUser = ground (
    arith,
    get_agent_and_member-SameUser e s,
    get_agent_and_member-SameUser e (asked e to s s),
    get_agent_and_member-SameUser e (asked e to s (looked e to s)),
  )

module _ (e : Env) (m : ChatMessage) (time : ℕ) (s : Session) where
  sign_and_send-client : (final (sign_and_send e m time s)).client ≡ s.client
  unfolding sign_and_send
  sign_and_send-client = ground arith

bind-client :
    (f : Flow (Unit {0}) (Unit {0})) (k : M (Unit {0}) (Unit {0}))
    → ((t : Session) → (final (k t)).client ≡ t.client)
    → (final (elim f [ next a t ↦ k t | done r t ↦ done r t ])).client ≡ (final f).client
bind-client (next a t) k h = h t
bind-client (done r t) k h = refl

private_chat-SameUser :
    (e : Env) (parsed : Bool) (message : Option ChatMessage) (time : ℕ) (s : Session)
    → SameUser s.client (c2s_private_chat e parsed message time s).client
unfolding c2s_private_chat
private_chat-SameUser e false message time s = ground arith
private_chat-SameUser e true none time s = ground arith
private_chat-SameUser e true (some m) time s = ground (
  arith,
  check_relation-SameUser e m.receiver_id s,
  bind-client (check_relation e m.receiver_id s) (sign_and_send e m time)
      (sign_and_send-client e m time),
)

pub private_chat-IsValid :
    (e : Env) (parsed : Bool) (message : Option ChatMessage) (time : ℕ) (s : Session)
    → IsValid s.client
    → IsValid (c2s_private_chat e parsed message time s).client
private_chat-IsValid e parsed message time s v =
    SameUser-IsValid s.client _ (private_chat-SameUser e parsed message time s) v

-- ===== src/Client/Receiving/Keeps.antt =====
-- The messages of the queue keep each contact under its own account id.
use instant_message.Prelude.{ℕ, String, Bool, true, false, Option, none, some, arith, ◌∷◌}
use instant_message.Client.{Client, be_friend}
use instant_message.Client.Message.{ChatMessage}
use instant_message.Client.Session.{Env, Session, is_set_member, agent_set}
use instant_message.Client.Saving.{save_contact_info}
use instant_message.Client.Agents.{get_agent_and_member, get_agent_and_member-SameUser, SameUser}
use instant_message.Client.Requests.{FriendMsg}
use instant_message.Client.Requests.Keeps.{update-IsValid}
use instant_message.Client.Receiving.{
  mq_private_chat_received, mq_add_friend_received, mq_agree_become_friend_received,
  mq_delete_friend_received,
}
use instant_message.Client.Keyed.{IsValid, be_friend-IsValid}

pub SameUser-IsValid : (c d : Client) → SameUser c d → IsValid c → IsValid d
SameUser-IsValid c d h v = ground (arith, v.contacts_keyed, v.black_list_keyed)

lookup-IsValid :
    (e : Env) (t : Session) → IsValid t.client → IsValid (get_agent_and_member e t).client
lookup-IsValid e t w =
    SameUser-IsValid t.client (get_agent_and_member e t).client (get_agent_and_member-SameUser e t)
      w

module _ (e : Env) (parsed : Bool) (s : Session) (v : IsValid s.client) where
  pub delete_friend_received-IsValid :
      (friend : ℕ) → IsValid (mq_delete_friend_received e parsed friend s).client
  unfolding mq_delete_friend_received
  delete_friend_received-IsValid friend = ground arith

module _ (e : Env) (nick_name : String) (s : Session) (v : IsValid s.client) where
  pub add_friend_received-IsValid :
      (parsed : Bool) (req : Option FriendMsg)
      → IsValid (mq_add_friend_received e parsed req nick_name s).client
  unfolding mq_add_friend_received
  add_friend_received-IsValid false req = ground arith
  add_friend_received-IsValid true none = ground arith
  add_friend_received-IsValid true (some req) = ground arith

  pub agree_become_friend_received-IsValid :
      (parsed : Bool) (req : Option FriendMsg)
      → IsValid (mq_agree_become_friend_received e parsed req nick_name s).client
  unfolding mq_agree_become_friend_received save_contact_info
  agree_become_friend_received-IsValid false req = ground arith
  agree_become_friend_received-IsValid true none = ground arith
  agree_become_friend_received-IsValid true (some req) =
      let d = be_friend req.receiver_id s.client in
      ground (arith, update-IsValid e d (be_friend-IsValid req.receiver_id s.client v))

module _ (e : Env) (m : ChatMessage) (s : Session) (v : IsValid s.client) where
  -- The session when redis has been asked for the sender's members.
  queried_from : Session
  queried_from = record s {
    trace = is_set_member agent_set m.sender_id s.client.account_id ∷ s.trace;
  }

  private_chat_received-some : IsValid (mq_private_chat_received e true (some m) s).client
  unfolding mq_private_chat_received queried_from
  private_chat_received-some =
      let t = get_agent_and_member e queried_from in
      let w = lookup-IsValid e queried_from v in ground (arith, w, lookup-IsValid e t w)

pub private_chat_received-IsValid :
    (e : Env) (parsed : Bool) (m : Option ChatMessage) (s : Session)
    → IsValid s.client
    → IsValid (mq_private_chat_received e parsed m s).client
unfolding mq_private_chat_received
private_chat_received-IsValid e false m s v = v
private_chat_received-IsValid e true none s v = v
private_chat_received-IsValid e true (some m) s v = private_chat_received-some e m s v

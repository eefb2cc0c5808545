-- ===== src/Client/Groups/Receiving.antt =====
-- msg-server/client/MQMsg.go: the messages about chat groups that the queue brings. A message that lacks
-- the inner message that the handler dereferences is left out.
pub mod Keeps
use instant_message.Prelude.{ℕ, String, Bool, not, ◌==◌, Option, none, some, if◌then◌else◌}
use instant_message.Client.GroupMessage.{
  JoinReq, RefuseReq, join_event, recv_create_chat_group, someone_req_join, manager_agreed,
  recv_agree_join, recv_refuse, recv_invite, recv_cancel, recv_un, recv_kick, kicked_by_manager,
}
use instant_message.Client.Session.{Session, ◌>>=◌, ◌>>◌, stop, when, gets, run}
use instant_message.Client.Groups.{answer, publish_group}

-- `ccg`, as far as the handler reads it and sends it on.
pub record NewGroup : Type 0 where
  pub new_group_id : ℕ
  pub new_group_name : String
  pub new_pic : String

pub mq_create_chat_group_received : (parsed : Bool) → Option NewGroup → Session → Session
mq_create_chat_group_received parsed none = run (when (not parsed) (stop tt))
mq_create_chat_group_received parsed (some g) = run do
  when (not parsed) (stop tt)
  me ← gets (λ c. c.account_id)
  publish_group (join_event me g.new_group_id)
  answer (recv_create_chat_group g.new_group_id g.new_group_name g.new_pic)

pub mq_req_join_received :
    (parsed : Bool) → JoinReq → (nick_name : String) (req_uid : ℕ) → Session → Session
mq_req_join_received parsed req nick_name uid =
    run do when (not parsed) (stop tt); answer (someone_req_join req nick_name uid)

pub mq_manager_agree_received :
    (parsed : Bool) → (group user : ℕ) (nick_name : String) → Session → Session
mq_manager_agree_received parsed group user nick_name =
    run do when (not parsed) (stop tt); answer (manager_agreed group user nick_name)

-- `S2CManagerAgreeJoinChatGroup`.
pub agree_join_received : (parsed : Bool) → (group : ℕ) → Session → Session
agree_join_received parsed group =
    run do when (not parsed) (stop tt); answer (recv_agree_join group)

pub mq_refuse_received : (parsed : Bool) → RefuseReq → Session → Session
mq_refuse_received parsed req =
    run do when (not parsed) (stop tt); answer (recv_refuse req.refuse_group_id req.refuse_message)

-- Whoever is invited, the client that is told joins the group.
pub mq_invite_received : (parsed : Bool) → (group inviter invitee : ℕ) → Session → Session
mq_invite_received parsed group inviter invitee = run do
  when (not parsed) (stop tt)
  me ← gets (λ c. c.account_id)
  publish_group (join_event me group)
  answer (recv_invite group inviter invitee)

pub mq_cancel_received : (parsed : Bool) → (group user : ℕ) (nick_name : String) → Session → Session
mq_cancel_received parsed group user nick_name =
    run do when (not parsed) (stop tt); answer (recv_cancel group user nick_name)

unfoldable pub mq_un_received : (parsed : Bool) → (group : ℕ) → Session → Session
mq_un_received parsed group = run do when (not parsed) (stop tt); answer (recv_un group)

unfoldable pub mq_kick_received : (parsed : Bool) → (group user : ℕ) → Session → Session
mq_kick_received parsed group user = run do
  when (not parsed) (stop tt)
  me ← gets (λ c. c.account_id)
  answer (if me == user then kicked_by_manager group user else recv_kick group user)

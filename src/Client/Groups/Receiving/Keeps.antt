-- ===== src/Client/Groups/Receiving/Keeps.antt =====
-- The messages of the queue about chat groups leave the client as it was.
use instant_message.Prelude.{ℕ, String, ◌≡◌, Bool, Option, none, some, arith}
use instant_message.Client.GroupMessage.{JoinReq, RefuseReq}
use instant_message.Client.Session.{Session}
use instant_message.Client.Groups.Receiving.{
  NewGroup, mq_create_chat_group_received, mq_req_join_received, mq_manager_agree_received,
  agree_join_received, mq_refuse_received, mq_invite_received, mq_cancel_received, mq_un_received,
  mq_kick_received,
}

module _ (parsed : Bool) (s : Session) where
  pub create_received-client :
      (g : Option NewGroup) → (mq_create_chat_group_received parsed g s).client ≡ s.client
  unfolding mq_create_chat_group_received
  create_received-client none = ground arith
  create_received-client (some g) = ground arith

  pub req_join_received-client :
      (req : JoinReq) (name : String) (uid : ℕ)
      → (mq_req_join_received parsed req name uid s).client ≡ s.client
  unfolding mq_req_join_received
  req_join_received-client req name uid = ground arith

  pub refuse_received-client :
      (req : RefuseReq) → (mq_refuse_received parsed req s).client ≡ s.client
  unfolding mq_refuse_received
  refuse_received-client req = ground arith

  module _ (group user : ℕ) where
    pub manager_agree_received-client :
        (name : String) → (mq_manager_agree_received parsed group user name s).client ≡ s.client
    unfolding mq_manager_agree_received
    manager_agree_received-client name = ground arith

    pub agree_join_received-client : (agree_join_received parsed group s).client ≡ s.client
    unfolding agree_join_received
    agree_join_received-client = ground arith

    pub invite_received-client :
        (invitee : ℕ) → (mq_invite_received parsed group user invitee s).client ≡ s.client
    unfolding mq_invite_received
    invite_received-client invitee = ground arith

    pub cancel_received-client :
        (name : String) → (mq_cancel_received parsed group user name s).client ≡ s.client
    unfolding mq_cancel_received
    cancel_received-client name = ground arith

    pub un_received-client : (mq_un_received parsed group s).client ≡ s.client
    unfolding mq_un_received
    un_received-client = ground arith

    pub kick_received-client : (mq_kick_received parsed group user s).client ≡ s.client
    unfolding mq_kick_received
    kick_received-client = ground arith

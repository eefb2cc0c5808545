-- ===== src/Client/Receiving.antt =====
-- msg-server/client/MQMsg.go: the messages of other users that the queue brings, as far as they are
-- about friends and private chat.
pub mod Filter
pub mod Keeps
use instant_message.Prelude.{ℕ, String, Bool, true, false, not, Option, none, some, ◌==◌}
use instant_message.Client.{is_friend, is_black_list, be_friend, get_friend_remark_name}
use instant_message.Client.Message.{ChatMessage}
use instant_message.Client.Session.{
  Env, Session, M, ◌>>=◌, ◌>>◌, pure, stop, when, gets, modify, call, ask, read_now, run, send,
  is_set_member, agent_set, user_online, get_portrait, delete_friend_verification,
  recv_private_chat, recv_add_friend, recv_agree_become_friend, recv_delete_friend_notice,
}
use instant_message.Client.Saving.{save_contact_info, save_friend_info_to_redis}
use instant_message.Client.Agents.{is_agent_or_member, get_agent_or_member_username}
use instant_message.Client.Requests.{FriendMsg, or_empty}

module _ (e : Env) where
  -- The name of a sender who is no friend: the sender must be related, by redis or by mysql.
  name_of_related : (sender : ℕ) → M (Unit {0}) String
  name_of_related sender = do
    me ← gets (λ c. c.account_id)
    is_member ← ask e.affected (is_set_member agent_set sender me)
    when (not (is_member == 1))
        do related ← is_agent_or_member e sender; when (not related) (stop tt)
    get_agent_or_member_username e sender

  name_of_sender : (friend : Bool) (sender : ℕ) → M (Unit {0}) String
  unfolding name_of_related
  name_of_sender true sender = gets (get_friend_remark_name sender)
  name_of_sender false sender = name_of_related sender

  -- The message of the queue, as far as it was unmarshalled.
  pub mq_private_chat_received : (parsed : Bool) → Option ChatMessage → Session → Session
  unfolding name_of_sender
  mq_private_chat_received false message = run (stop tt)
  mq_private_chat_received true none = run (stop tt)
  mq_private_chat_received true (some m) = run do
    friend ← gets (λ c. is_friend c m.sender_id)
    name ← name_of_sender friend m.sender_id
    listed ← gets (λ c. is_black_list c m.sender_id)
    when listed (stop tt)
    call (send (recv_private_chat (record m { sender_remark_name = name })))

  pub mq_add_friend_received :
      (parsed : Bool) → Option FriendMsg → (nick_name : String) → Session → Session
  mq_add_friend_received false req nick_name = run (stop tt)
  mq_add_friend_received true none nick_name = run (stop tt)
  mq_add_friend_received true (some req) nick_name = run do
    me ← gets (λ c. c.account_id)
    online ← ask e.ok (user_online me)
    when online do
      time ← read_now e
      portrait ← ask e.text (get_portrait req.sender_id)
      call (send (recv_add_friend req.sender_id req.receiver_id time nick_name (or_empty portrait)))

  pub mq_agree_become_friend_received :
      (parsed : Bool) → Option FriendMsg → (nick_name : String) → Session → Session
  mq_agree_become_friend_received false req nick_name = run (stop tt)
  mq_agree_become_friend_received true none nick_name = run (stop tt)
  mq_agree_become_friend_received true (some req) nick_name = run do
    me ← gets (λ c. c.account_id)
    friend ← gets (λ c. is_friend c req.receiver_id)
    when (not friend)
        do modify (be_friend req.receiver_id); save_contact_info e; save_friend_info_to_redis
    call (delete_friend_verification me req.receiver_id)
    portrait ← ask e.text (get_portrait req.receiver_id)
    call (
        send (recv_agree_become_friend req.sender_id req.receiver_id nick_name (or_empty portrait)))

  pub mq_delete_friend_received : (parsed : Bool) → (friend : ℕ) → Session → Session
  mq_delete_friend_received parsed friend =
      run do when (not parsed) (stop tt); call (send (recv_delete_friend_notice friend))

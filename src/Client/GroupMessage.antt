-- ===== src/Client/GroupMessage.antt =====
-- The messages about chat groups: what msg-server/client/chatGroup.go reads, sends, queues, stores and
-- asks of redis and mysql.
use instant_message.Prelude.{ℕ, String, Bool, Option, List}
use instant_message.Client.{ChatGroup}
use instant_message.Client.Message.{MsgType, VoiceMessage, FileMessage, VideoMessage, CardMessage}

-- msg_struct.GroupMessage.
pub record GroupMessage : Type 0 where
  pub sender_id : ℕ
  pub receive_group_id : ℕ
  pub sender_name : String
  pub sender_head_portrait_url : String
  pub msg_type : MsgType
  pub text_body : String
  pub srv_time_stamp : ℕ
  pub with_draw : Bool
  pub voice_message : Option VoiceMessage
  pub file_message : Option FileMessage
  pub video_message : Option VideoMessage
  pub card_message : Option CardMessage

-- msg_struct.ChatGroupMemberRds; the flag of an owner is 1, of another member 2.
pub record Member : Type 0 where
  pub user_id : ℕ
  pub user_nick_name : String
  pub flag : ℕ
  pub user_head_portrait_url : String

-- A text of the reply to HGETALL: what ParseInt makes of it, 0 on an error, and what json.Unmarshal does.
pub record HashItem : Type 0 where
  pub as_id : ℕ
  pub as_member : Option Member

-- The reply to HGET: redis.ErrNil is `absent`, another error `broken`.
pub data HashField : Type 0 where
  present absent broken : HashField

-- A row of chat_group_member; its dates are left out.
pub record MemberRow : Type 0 where
  pub row_account_id : ℕ
  pub row_chat_group_id : ℕ
  pub row_nick_name : String

-- The flag of a row of the log of members who left.
pub data QuitReason : Type 0 where
  owner_un_chat_group member_quit_chat_group owner_kick_group_member : QuitReason

pub data GroupError : Type 0 where
  unmarshal_create owner_marshal_failed invitee_is_not_friend ban_in_short_time : GroupError
  insert_chat_group_fail insert_chat_group_member_fail commit_error : GroupError
  unmarshal_req_join req_join_group_id is_group_member query_group_manager_failed : GroupError
  mq_group_manager_failed unmarshal_agree agree_query_group_id_failed agree_is_not_manager :
      GroupError
  agree_query_req_uid_failed agree_insert_member_failed agree_update_log_failed : GroupError
  agree_notice_requester_failed agree_get_members_failed : GroupError
  unmarshal_refuse refuse_error refuse_update_log_failed : GroupError
  unmarshal_info info_group_id_error info_get_group_failed info_get_member_failed : GroupError
  unmarshal_invite invite_group_id_error invite_is_not_friend invite_invitee_id_error : GroupError
  invite_has_joined invite_insert_member_failed invite_get_member_failed : GroupError
  unmarshal_cancel cancel_group_id_error cancel_is_not_member cancel_is_creator : GroupError
  unmarshal_un un_group_id_error un_is_not_creator un_get_members_failed : GroupError
  unmarshal_kick kick_group_id_error kick_is_not_creator kick_user_is_not_member : GroupError
  kick_get_members_failed : GroupError
  unmarshal_chat chat_msg_is_nil chat_msg_is_illegal chat_sender_is_not_member : GroupError
  type_not_match chat_voice_url_is_empty chat_voice_too_long chat_file_url_is_empty : GroupError
  chat_file_thumbnail_is_empty chat_video_url_is_empty chat_video_thumbnail_is_empty : GroupError
  marshal_chat_failed chat_store_failed : GroupError
  unmarshal_offline offline_group_id_illegal offline_get_failed : GroupError
  unmarshal_withdraw_group withdraw_group_fail : GroupError

-- The requests, as far as the handlers read them.
pub record CreateReq : Type 0 where
  pub friend_ids : List ℕ
  pub chat_group_name : String
  pub pic_chat_group : String

pub record JoinReq : Type 0 where
  pub join_group_id : ℕ
  pub join_user_id : ℕ
  pub req_message : String

pub record AgreeReq : Type 0 where
  pub agree_group_id : ℕ
  pub agree_req_id : ℕ
  pub agree_req_uid : ℕ
  pub agree_nick_name : String

pub record RefuseReq : Type 0 where
  pub refuse_group_id : ℕ
  pub refuse_user_id : ℕ
  pub refuse_req_uid : ℕ
  pub refuse_message : String

-- The messages to the user's own terminal.
pub data GroupReply : Type 0 where
  create_chat_group_ack : ChatGroup → List ℕ → GroupReply
  req_join_ack : JoinReq → (nick_name : String) → GroupReply
  agree_join_ack : (group user : ℕ) → GroupReply
  chat_group_info : ChatGroup → List Member → GroupReply
  invite_ack cancel_ack un_ack kick_ack : (group : ℕ) → GroupReply
  group_chat_ack : (group server_time client_time : ℕ) → GroupReply
  offline_group_chat : (group msg_timestamp : ℕ) → List GroupMessage → GroupReply
  withdraw_group_ack : (server_time : ℕ) → GroupReply
  someone_req_join : JoinReq → (nick_name : String) (req_uid : ℕ) → GroupReply
  manager_agreed : (group user : ℕ) (nick_name : String) → GroupReply
  recv_create_chat_group : (group : ℕ) (group_name pic : String) → GroupReply
  recv_agree_join : (group : ℕ) → GroupReply
  recv_refuse : (group : ℕ) (message : String) → GroupReply
  recv_invite : (group inviter invitee : ℕ) → GroupReply
  recv_cancel : (group user : ℕ) (nick_name : String) → GroupReply
  recv_un : (group : ℕ) → GroupReply
  recv_kick kicked_by_manager : (group user : ℕ) → GroupReply

-- The messages to another user, through the queue.
pub data GroupMq : Type 0 where
  mq_create_chat_group : (group : ℕ) (group_name pic : String) → GroupMq
  mq_req_join : JoinReq → (nick_name : String) (req_uid : ℕ) → GroupMq
  mq_agree_join : (group : ℕ) → GroupMq
  mq_manager_agree : (group user : ℕ) (nick_name : String) → GroupMq
  mq_refuse : RefuseReq → GroupMq
  mq_invite :
      (group inviter : ℕ) (inviter_name : String) (invitee : ℕ) (invitee_name : String) → GroupMq
  mq_cancel : (group user : ℕ) (nick_name : String) → GroupMq
  mq_un : (group : ℕ) → GroupMq
  mq_kick : (group user : ℕ) → GroupMq

-- The events, which onlineChatGroupManager subscribes to. That of a join carries the client.
pub data GroupEvent : Type 0 where
  join_event : (account group : ℕ) → GroupEvent
  cancel_event : (account group : ℕ) → GroupEvent
  un_event : (group : ℕ) → GroupEvent
  chat_event : GroupMessage → GroupEvent

-- The calls of redis, mysql and the push service.
pub data GroupCall : Type 0 where
  lock_creation unlock_creation : (account : ℕ) → GroupCall
  insert_chat_group : ChatGroup → GroupCall
  insert_members : List MemberRow → GroupCall
  insert_create_log : (group creator : ℕ) → GroupCall
  set_group_info : ChatGroup → GroupCall
  set_members : (group : ℕ) → List (ℕ × Member) → GroupCall
  select_group exists_group get_group_info exists_group_info exists_account : (id : ℕ) → GroupCall
  get_member get_member_field : (group user : ℕ) → GroupCall
  get_all_members : (group : ℕ) → GroupCall
  insert_join_log : (group requester req_uid : ℕ) → String → GroupCall
  new_req_uid : GroupCall
  is_record_member : (group account : ℕ) → GroupCall
  process_join_log refuse_join_log : (req_uid : ℕ) → GroupCall
  select_join_log update_join_log : (req_uid : ℕ) → GroupCall
  get_record_members : (group : ℕ) → GroupCall
  member_type_panic : GroupCall
  remove_redis_member remove_db_member : (user group : ℕ) → GroupCall
  remove_db_members remove_db_group remove_redis_members : (group : ℕ) → GroupCall
  insert_destroy_log : (group creator : ℕ) → GroupCall
  insert_quit_log : (group member owner : ℕ) → QuitReason → GroupCall
  store_group_chat : (group : ℕ) → GroupMessage → (score : ℕ) → GroupCall
  load_group_chats_after load_group_chats_at : (group score : ℕ) → GroupCall
  push_all : (android ios : List String) → GroupCall
  update_group_timestamp : (group timestamp : ℕ) → GroupCall

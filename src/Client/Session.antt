-- ===== src/Client/Session.antt =====
-- What a handler of msg-server/client does besides changing the client: the calls that it makes of
-- redis, mysql, the message queue, the clock, the sender to the user and the event manager. None of
-- these is implemented in the repository. A call is recorded, and its outcome is whatever the
-- environment answers to it after the calls before it.
use instant_message.Prelude.{ℕ, String, Bool, true, false, Option, List, [], ◌∷◌}
use instant_message.Client.{Client, Contact, Bytes, ChatGroup}
use instant_message.Client.GroupMessage.{
  GroupMessage, GroupError, GroupReply, GroupMq, GroupEvent, GroupCall, Member, HashItem, HashField,
}
use instant_message.Client.AccountMessage.{
  DeviceInfo, UserBriefInfo, UserRow, PostBrief, AccountError, AccountReply, AccountCall,
}
use instant_message.Client.Message.{ChatMessage, PushInfo}
use instant_message.Client.WeiboMessage.{
  Weibo, ReplyWeibo, WeiboRow, PostKey, Fetched, WeiboError, WeiboReply, WeiboMq, WeiboCall,
}

-- msg_err_code.MsgErrCode, as far as the modelled handlers send it.
pub data ErrCode : Type 0 where
  unmarshal_add_friend unmarshal_agree_become_friend unmarshal_delete_friend : ErrCode
  unmarshal_confirm_delete_friend unmarshal_set_remark_name : ErrCode
  friend_with_self add_friend_param add_friend_mysql_write already_friends : ErrCode
  agree_no_record agree_read_error agree_already_friends agree_mysql_write : ErrCode
  delete_is_not_friend delete_internal confirm_is_not_friend confirm_internal : ErrCode
  remark_is_not_friend remark_is_empty : ErrCode
  unmarshal_private_chat receiver_illegal receiver_is_not_friend receiver_type_illegal : ErrCode
  message_type_not_match voice_url_is_empty voice_too_long file_url_is_empty : ErrCode
  file_thumbnail_is_empty video_url_is_empty video_thumbnail_is_empty card_is_empty : ErrCode
  unmarshal_withdraw withdraw_fail withdrawer_is_not_sender : ErrCode
  unmarshal_huan_xin huan_xin_is_not_friend huan_xin_not_his_friend : ErrCode
  huan_xin_no_push_info huan_xin_is_not_android : ErrCode
  group_error : GroupError → ErrCode
  weibo_error : WeiboError → ErrCode
  account_error : AccountError → ErrCode

-- The messages to the user's own terminal (msg_struct.S2C...).
pub data Reply : Type 0 where
  error_code : ErrCode → ℕ → Reply
  add_friend_ack : (sender receiver timestamp : ℕ) → Reply
  agree_become_friend : (sender timestamp : ℕ) (nick_name portrait : String) → Reply
  read_friend_req recv_delete_friend confirm_delete_friend : ℕ → Reply
  add_black_list move_out_black_list : ℕ → Reply
  friend_black_list : List ℕ → Reply
  set_remark_name : ℕ → String → Reply
  private_chat_ack : (receiver server_time client_time : ℕ) → Reply
  recv_private_chat : ChatMessage → Reply
  recv_add_friend : (sender receiver server_time : ℕ) (nick_name portrait : String) → Reply
  recv_agree_become_friend : (sender receiver : ℕ) (nick_name portrait : String) → Reply
  recv_delete_friend_notice : ℕ → Reply
  offline_private_chat : (server_time : ℕ) → List ChatMessage → Reply
  withdraw_ack : (server_time : ℕ) → Reply
  huan_xin_ack : Reply
  other_terminal_private_chat : ChatMessage → Reply
  other_terminal_agree_become_friend : (sender : ℕ) (nick_name : String) → Reply
  group_reply : GroupReply → Reply
  weibo_reply : WeiboReply → Reply
  account_reply : AccountReply → Reply

-- The messages to another user, through the queue (msg_struct.MQ...).
pub data MqMsg : Type 0 where
  mq_add_friend : (sender receiver timestamp : ℕ) (nick_name : String) (server_time : ℕ) → MqMsg
  mq_agree_become_friend : (sender receiver timestamp : ℕ) (nick_name : String) → MqMsg
  mq_delete_friend : ℕ → MqMsg
  mq_private_chat : ChatMessage → MqMsg
  mq_group : GroupMq → MqMsg
  mq_weibo : WeiboMq → MqMsg

-- eventmanager.EventID with the data of its argument; the client is the session's.
pub data Event : Type 0 where
  agree_become_friend_event read_friend_req_event delete_friend_event : Reply → Event
  confirm_delete_friend_event add_black_list_event : Reply → Event
  move_out_black_list_event set_remark_name_event withdraw_event : Reply → Event
  private_chat_event : ChatMessage → Event
  last_msg_timestamp_event : ℕ → Event
  group_event : GroupEvent → Event
  publish_weibo_event : (weibo_id : ℕ) → Weibo → Event

pub data Key : Type 0 where
  friend_set black_list_set agent_set : Key
  dont_look_weibo_set forbidden_look_weibo_set stranger_look_weibo_set cover_liker_set : Key

pub data Call : Type 0 where
  send : Reply → Call
  mq : ℕ → MqMsg → Call
  publish : Event → Call
  set_add set_remove is_set_member : Key → (owner member : ℕ) → Call
  get_set_members : Key → (owner : ℕ) → Call
  get_brief_info get_portrait : ℕ → Call
  read_clock : Call
  select_friend_req insert_friend_req delete_friend_req : (receiver sender : ℕ) → Call
  insert_friend_verification : (friend account : ℕ) → Call
  update_contact_list update_black_list : Bytes → ℕ → Call
  select_agent_id select_agent_name select_members : ℕ → Call
  store_chat : (owner : ℕ) → ChatMessage → (score : ℕ) → Call
  load_chats_after load_chats_at : (owner score : ℕ) → Call
  user_online get_push_info : ℕ → Call
  push : PushInfo → Call
  tx_begin tx_commit tx_rollback tx_close : Call
  insert_friend_delete confirm_friend_delete : (sender receiver : ℕ) → Call
  delete_friend_verifications : (friend : ℕ) → Call
  delete_friend_verification : (friend account : ℕ) → Call
  group_call : GroupCall → Call
  weibo_call : WeiboCall → Call
  account_call : AccountCall → Call

-- The answer to a query of one row.
pub data Row : Type 0 where
  found no_rows failed : Row

-- The environment: what a call returns, from the calls made before it, the latest first.
pub record Env : Type 0 where
  pub ok : List Call → Call → Bool
  pub affected : List Call → Call → ℕ
  pub row : List Call → Call → Row
  pub text : List Call → Call → Option String
  pub id : List Call → Call → Option ℕ
  pub members : List Call → Call → Option (List (ℕ × String))
  pub now : List Call → ℕ
  pub marshal : List Contact → Option Bytes
  pub marshal_chat : ChatMessage → Bool
  pub push_info : List Call → Call → Option PushInfo
  pub chats : List Call → Call → Option (List (Option ChatMessage))
  pub brief_id : List Call → Call → ℕ
  pub chat_group : List Call → Call → Option ChatGroup
  pub member : List Call → Call → Option Member
  pub hash : List Call → Call → Option (List HashItem)
  pub hash_field : List Call → Call → HashField
  pub uid : List Call → ℕ
  pub set_ids : List Call → Call → Option (List ℕ)
  pub group_chats : List Call → Call → Option (List (Option GroupMessage))
  pub crc32_id : (seconds account : ℕ) → ℕ
  pub marshal_member : Member → Bool
  pub marshal_group_chat : GroupMessage → Bool
  pub marshal_urls : List String → Bool
  pub marshal_weibo : Weibo → Bool
  pub marshal_reply : ReplyWeibo → Bool
  pub marshal_device : DeviceInfo → Bool
  pub json_brief : String → Option UserBriefInfo
  pub proto_brief : String → Option UserBriefInfo
  pub user_row : List Call → Call → Option UserRow
  pub post_brief : List Call → Call → Option (Option PostBrief)
  pub back_sorted : List ℕ → List ℕ
  pub weibo : List Call → Call → Fetched
  pub weibo_row : List Call → Call → Option (Option WeiboRow)
  pub posts : List Call → Call → List PostKey
  pub replies : List Call → Call → Option (List (Option ReplyWeibo))

pub record Session : Type 0 where
  pub client : Client
  pub trace : List Call

-- A handler goes on with a value, or returns early.
pub data Flow (R A : Type 0) : Type 0 where
  next : A → Session → Flow R A
  done : R → Session → Flow R A

abbrev pub M : Type 0 → Type 0 → Type 0
M R A = Session → Flow R A

infixl 5 ◌>>=◌ ◌>>◌
abbrev pub ◌>>=◌ : {R A B : Type 0} → M R A → (A → M R B) → M R B
◌>>=◌ m f s = elim (m s) [ next a s' ↦ f a s' | done r s' ↦ done r s' ]

abbrev pub ◌>>◌ : {R A B : Type 0} → M R A → M R B → M R B
m >> k = m >>= λ _. k

abbrev pub pure : {R A : Type 0} → A → M R A
pure a s = next a s

-- `return`.
abbrev pub stop : {R A : Type 0} → R → M R A
stop r s = done r s

abbrev pub when : {R : Type 0} → Bool → M R (Unit {0}) → M R (Unit {0})
when true m s = m s
when false m s = next tt s

abbrev pub gets : {R A : Type 0} → (Client → A) → M R A
gets f s = next (f s.client) s

abbrev pub modify : {R : Type 0} → (Client → Client) → M R (Unit {0})
modify f s = next tt (record s { client = f s.client })

abbrev record_call : Call → Session → Session
record_call c s = record s { trace = c ∷ s.trace }

abbrev pub call : {R : Type 0} → Call → M R (Unit {0})
call c s = next tt (record_call c s)

-- A call with the answer that `answer` takes from the environment.
abbrev pub ask : {R A : Type 0} → (List Call → Call → A) → Call → M R A
ask answer c s = next (answer s.trace c) (record_call c s)

-- The clock in microseconds, `time.Now().UnixNano() / 1e3`.
abbrev pub read_now : {R : Type 0} → Env → M R ℕ
read_now e s = next (e.now s.trace) (record_call read_clock s)

-- `SendErrorCode` and `return`.
abbrev pub reject : {A : Type 0} → ErrCode → ℕ → M (Unit {0}) A
reject code timestamp s = done tt (record_call (send (error_code code timestamp)) s)

-- A function literal with its own `return`, called where it stands.
abbrev pub scoped : {R A : Type 0} → M A A → M R A
scoped m s = elim (m s) [ next a s' ↦ next a s' | done a s' ↦ next a s' ]

abbrev pub final : {R : Type 0} → Flow R (Unit {0}) → Session
final (next a s) = s
final (done r s) = s

-- The session after a handler.
abbrev pub run : M (Unit {0}) (Unit {0}) → Session → Session
run m s = final (m s)

-- A session with no call made yet. What the environment answers may be any function of the calls,
-- so statements from here cover every earlier history.
abbrev pub start : Client → Session
start c = record { client = c; trace = [] }

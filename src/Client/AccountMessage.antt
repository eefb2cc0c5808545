-- ===== src/Client/AccountMessage.antt =====
-- The messages about the account itself: what msg-server/client/account.go and rename.go read, send, and
-- ask of redis and mysql.
use instant_message.Prelude.{ℕ, String, Option, List}
use instant_message.Client.GroupMessage.{Member}

-- msg_struct.DeviceInfo.
pub record DeviceInfo : Type 0 where
  pub device_info : String
  pub device_producter : String

-- msg_struct.UserBriefInfo, as far as the user's own is stored.
pub record UserBriefInfo : Type 0 where
  pub account_id : ℕ
  pub nickname : String
  pub user_name : String
  pub head_portrait : String

-- A row of the table of accounts, as far as a search reads it.
pub record UserRow : Type 0 where
  pub account_id : ℕ
  pub user_name : String
  pub nick_name : String

-- What a search reads of a post: its kind, and its addresses, none where they are not unmarshalled.
pub record PostBrief : Type 0 where
  pub kind : ℕ
  pub urls : Option (List String)

pub data AccountError : Type 0 where
  unmarshal_device_info device_info_is_empty device_producter_is_empty : AccountError
  marshal_device_info account_device_into_redis device_account_into_redis : AccountError
  device_info_into_mysql unmarshal_set_user_name user_name_is_exist : AccountError
  user_name_into_redis user_name_into_mysql unmarshal_set_head_portrait : AccountError
  head_portrait_url_is_empty head_portrait_into_redis head_portrait_into_mysql : AccountError
  unmarshal_change_password new_password_is_empty change_password_into_mysql : AccountError
  unmarshal_find_user find_user_key_is_empty user_is_not_exist : AccountError

pub data AccountReply : Type 0 where
  heartbeat_ack : (time_stamp : ℕ) → AccountReply
  device_info_ack set_user_name_ack set_head_portrait_ack change_password_ack : AccountReply
  rename_ack : (new_name : String) → AccountReply
  find_user_ack : UserBriefInfo → (urls : List String) → AccountReply

-- The calls of redis, then those of mysql. `account_crash` is no call: a field of a nil pointer is read.
pub data AccountCall : Type 0 where
  account_crash : AccountCall
  set_online_expire : (account : ℕ) → AccountCall
  set_brief_info : UserBriefInfo → AccountCall
  get_device_owner : (device : String) → AccountCall
  delete_push_info : (key : String) → AccountCall
  set_push_info : (account : ℕ) → DeviceInfo → AccountCall
  set_device_owner : (device : String) (account : ℕ) → AccountCall
  exists_user_name : String → AccountCall
  set_name_account : (name : String) (account : ℕ) → AccountCall
  set_account_name : (account : ℕ) (name : String) → AccountCall
  set_head_portrait_url : (account : ℕ) (url : String) → AccountCall
  get_brief_info_of get_name_account : (key : String) → AccountCall
  get_post_ids : (publisher : ℕ) → AccountCall
  set_member : (group account : ℕ) → Member → AccountCall
  select_account_id select_user_name : (key : String) → AccountCall
  update_device_info : (account : ℕ) → DeviceInfo → AccountCall
  update_user_name update_head_portrait update_password :
      (account : ℕ) (value : String) → AccountCall

-- ===== src/Client/Account.antt =====
-- msg-server/client/account.go and rename.go: the handlers that change the user's own account, but for the
-- search of another user.
pub mod Keeps
pub mod Renaming
pub mod Searching
use text.Mathlib.Text.{◌==◌}
use instant_message.Prelude.{
  ℕ, String, Bool, true, false, not, ◌&&◌, Option, none, some, List, [], ◌∷◌, if◌then◌else◌,
}
use instant_message.Client.{Client, get_chat_group_ids}
use instant_message.Client.Message.{is_blank}
use instant_message.Client.GroupMessage.{Member, get_member}
use instant_message.Client.AccountMessage.{
  DeviceInfo, UserBriefInfo, AccountError, AccountReply, AccountCall, unmarshal_device_info,
  device_info_is_empty, device_producter_is_empty, marshal_device_info, account_device_into_redis,
  device_account_into_redis, device_info_into_mysql, unmarshal_set_user_name, user_name_is_exist,
  user_name_into_redis, user_name_into_mysql, unmarshal_set_head_portrait,
  head_portrait_url_is_empty, head_portrait_into_redis, head_portrait_into_mysql,
  unmarshal_change_password, new_password_is_empty, change_password_into_mysql, heartbeat_ack,
  device_info_ack, set_user_name_ack, set_head_portrait_ack, change_password_ack, rename_ack,
  account_crash, set_online_expire, set_brief_info, get_device_owner, delete_push_info,
  set_push_info, set_device_owner, exists_user_name, set_name_account, set_account_name,
  set_head_portrait_url, set_member, update_device_info, update_user_name, update_head_portrait,
  update_password,
}
use instant_message.Client.Session.{
  Call, Env, Session, M, ◌>>=◌, ◌>>◌, pure, stop, when, gets, modify, call, ask, reject, run, send,
  group_call, account_call, account_error, account_reply,
}
use instant_message.Client.Groups.{for_each}

abbrev pub account_reject : {A : Type 0} → AccountError → M (Unit {0}) A
account_reject code = reject (account_error code) 0

abbrev pub account_answer : {R : Type 0} → AccountReply → M R (Unit {0})
account_answer r = call (send (account_reply r))

abbrev pub set_name : String → Client → Client
set_name name c = record c { nick_name = name }

abbrev pub set_portrait : String → Client → Client
set_portrait url c = record c { head_portrait = url }

-- A failure is only logged.
abbrev pub save_usr_brief_info_to_redis : {R : Type 0} → M R (Unit {0})
save_usr_brief_info_to_redis = do
  c ← gets (λ c. c)
  call (
      account_call (
        set_brief_info (record {
          account_id = c.account_id;
          nickname = c.nick_name;
          user_name = c.user_name;
          head_portrait = c.head_portrait;
        })))

-- A write whose failure ends the handler with the code.
abbrev pub written : Env → AccountCall → AccountError → M (Unit {0}) (Unit {0})
written e c code = do ok ← ask e.ok (account_call c); when (not ok) (account_reject code)

-- The account that used the device before has its push information deleted.
abbrev pub forget_owner : Option String → M (Unit {0}) (Unit {0})
forget_owner none = pure tt
forget_owner (some key) = call (account_call (delete_push_info key))

unfoldable pub c2s_heartbeat : (parsed : Bool) → (time_stamp : ℕ) → Session → Session
c2s_heartbeat parsed time_stamp = run do
  when (not parsed) (stop tt)
  me ← gets (λ c. c.account_id)
  call (account_call (set_online_expire me))
  account_answer (heartbeat_ack time_stamp)

module _ (e : Env) where
  device_given : Option DeviceInfo → M (Unit {0}) (Unit {0})
  device_given none = call (account_call account_crash) >>= λ _. stop tt
  device_given (some d) = do
    when (is_blank d.device_info) (account_reject device_info_is_empty)
    when (is_blank d.device_producter) (account_reject device_producter_is_empty)
    when (not (e.marshal_device d)) (account_reject marshal_device_info)
    owner ← ask e.text (account_call (get_device_owner d.device_info))
    forget_owner owner
    me ← gets (λ c. c.account_id)
    written e (set_push_info me d) account_device_into_redis
    written e (set_device_owner d.device_info me) device_account_into_redis
    written e (update_device_info me d) device_info_into_mysql
    account_answer device_info_ack

  unfoldable pub c2s_device_info : (parsed : Bool) → Option DeviceInfo → Session → Session
  unfolding device_given
  c2s_device_info parsed device =
      run do when (not parsed) (account_reject unmarshal_device_info); device_given device

  -- The user name in memory is read and not set.
  unfoldable pub c2s_set_user_name : (parsed : Bool) → (name : String) → Session → Session
  c2s_set_user_name parsed name = run do
    when (not parsed) (account_reject unmarshal_set_user_name)
    when (is_blank name) (account_reject device_info_is_empty)
    held ← gets (λ c. c.user_name)
    when (not (is_blank held)) (account_reject device_info_is_empty)
    taken ← ask e.ok (account_call (exists_user_name name))
    when taken (account_reject user_name_is_exist)
    save_usr_brief_info_to_redis
    me ← gets (λ c. c.account_id)
    written e (set_name_account name me) user_name_into_redis
    written e (update_user_name me name) user_name_into_mysql
    account_answer set_user_name_ack

  unfoldable pub c2s_set_head_portrait : (parsed : Bool) → (url : String) → Session → Session
  c2s_set_head_portrait parsed url = run do
    when (not parsed) (account_reject unmarshal_set_head_portrait)
    when (is_blank url) (account_reject head_portrait_url_is_empty)
    modify (set_portrait url)
    save_usr_brief_info_to_redis
    me ← gets (λ c. c.account_id)
    written e (set_head_portrait_url me url) head_portrait_into_redis
    written e (update_head_portrait me url) head_portrait_into_mysql
    account_answer set_head_portrait_ack

  unfoldable pub c2s_change_password : (parsed : Bool) → (password : String) → Session → Session
  c2s_change_password parsed password = run do
    when (not parsed) (account_reject unmarshal_change_password)
    when (is_blank password) (account_reject new_password_is_empty)
    me ← gets (λ c. c.account_id)
    written e (update_password me password) change_password_into_mysql
    account_answer change_password_ack

  -- A member that redis does not give, or that is not marshalled, is left as it was.
  abbrev pub rename_member : (group me : ℕ) (name : String) → Option Member → List Call → List Call
  rename_member group me name none t = t
  rename_member group me name (some member) t =
      let renamed : Member = record member { user_nick_name = name } in
      if e.marshal_member renamed then account_call (set_member group me renamed) ∷ t else t

  abbrev pub rename_in : (me : ℕ) (name : String) (group : ℕ) → List Call → List Call
  rename_in me name group t =
      let asked : Call = group_call (get_member group me) in
      rename_member group me name (e.member t asked) (asked ∷ t)

  pub rename_everywhere : {R : Type 0} → (name : String) → M R (Unit {0})
  rename_everywhere name = do
    modify (set_name name)
    save_usr_brief_info_to_redis
    me ← gets (λ c. c.account_id)
    call (account_call (set_account_name me name))
    groups ← gets get_chat_group_ids
    for_each groups (rename_in me name)

  unfoldable pub c2s_rename : (parsed : Bool) → (name : String) → Session → Session
  unfolding rename_everywhere
  c2s_rename parsed name = run do
    when (not parsed) (stop tt)
    held ← gets (λ c. c.nick_name)
    when (not (held == name) && not (is_blank name)) (rename_everywhere name)
    account_answer (rename_ack name)

-- `registerLogicCall` of these files.
pub data AccountRequest : Type 0 where
  heartbeat : (parsed : Bool) (time_stamp : ℕ) → AccountRequest
  device : (parsed : Bool) → Option DeviceInfo → AccountRequest
  new_user_name new_head_portrait new_password new_name :
      (parsed : Bool) (value : String) → AccountRequest

unfoldable pub handle_account : Env → AccountRequest → Session → Session
handle_account e (heartbeat p ts) = c2s_heartbeat p ts
handle_account e (device p d) = c2s_device_info e p d
handle_account e (new_user_name p name) = c2s_set_user_name e p name
handle_account e (new_head_portrait p url) = c2s_set_head_portrait e p url
handle_account e (new_password p password) = c2s_change_password e p password
handle_account e (new_name p name) = c2s_rename e p name

-- ===== src/Client/Groups/Leaving.antt =====
-- msg-server/client/chatGroup.go: `C2SCancelChatGroup`, `C2SUnChatGroup` and `C2SChatGroupKick`. What
-- redis and mysql do not remove is only logged.
pub mod Authority
pub mod Telling
pub mod Keeps
use instant_message.Prelude.{ℕ, Bool, not, ◌==◌, Option, none, some, List, [], ◌∷◌, if◌then◌else◌}
use instant_message.Client.{ChatGroup}
use instant_message.Client.GroupMessage.{
  HashItem, GroupMq, select_group, get_all_members, remove_redis_member, remove_db_member,
  remove_db_members, remove_db_group, remove_redis_members, insert_destroy_log, insert_quit_log,
  owner_un_chat_group, member_quit_chat_group, owner_kick_group_member, unmarshal_cancel,
  cancel_group_id_error, cancel_is_not_member, cancel_is_creator, unmarshal_un, un_group_id_error,
  un_is_not_creator, un_get_members_failed, unmarshal_kick, kick_group_id_error,
  kick_is_not_creator, kick_user_is_not_member, kick_get_members_failed, mq_cancel, mq_un, mq_kick,
  cancel_event, un_event, cancel_ack, un_ack, kick_ack,
}
use instant_message.Client.Session.{
  Call, Env, Session, M, ◌>>=◌, ◌>>◌, when, gets, ask, run, group_call,
}
use instant_message.Client.Groups.{
  group_reject, ask_group, answer, publish_group, for_each, queue_to, is_group_member, member_ids,
}

abbrev ids_of : Option (List HashItem) → List ℕ
ids_of none = []
ids_of (some items) = member_ids items

abbrev pub queue_to_other : (me : ℕ) → GroupMq → ℕ → List Call → List Call
queue_to_other me m member t = if me == member then t else queue_to m member t

-- The leaving of a member who is told that the owner dissolves the group; the owner is not told.
abbrev pub dismiss : (me group owner : ℕ) → (member : ℕ) → List Call → List Call
dismiss me group owner member t =
    queue_to_other me (mq_un group) member
      (group_call (insert_quit_log group member owner owner_un_chat_group) ∷ t)

module _ (e : Env) where
  cancel_of : (id : ℕ) → Option ChatGroup → M (Unit {0}) (Unit {0})
  cancel_of id none = group_reject cancel_group_id_error
  cancel_of id (some group) = do
    me ← gets (λ c. c.account_id)
    member ← is_group_member e id me
    when (not member) (group_reject cancel_is_not_member)
    when (group.creator == me) (group_reject cancel_is_creator)
    ask_group (remove_redis_member me id)
    ask_group (remove_db_member me id)
    ask_group (insert_quit_log group.chat_group_id me group.creator member_quit_chat_group)
    nick_name ← gets (λ c. c.nick_name)
    items ← ask e.hash (group_call (get_all_members id))
    for_each (ids_of items) (queue_to (mq_cancel group.chat_group_id me nick_name))
    publish_group (cancel_event me id)
    answer (cancel_ack group.chat_group_id)

  unfoldable pub c2s_cancel_chat_group : (parsed : Bool) → (group : ℕ) → Session → Session
  unfolding cancel_of
  c2s_cancel_chat_group parsed id = run do
    when (not parsed) (group_reject unmarshal_cancel)
    group ← ask e.chat_group (group_call (select_group id))
    cancel_of id group

  dissolve : (id : ℕ) → ChatGroup → Option (List HashItem) → M (Unit {0}) (Unit {0})
  dissolve id group none = group_reject un_get_members_failed
  dissolve id group (some items) = do
    me ← gets (λ c. c.account_id)
    ask_group (remove_db_members group.chat_group_id)
    ask_group (remove_db_group group.chat_group_id)
    ask_group (remove_redis_members group.chat_group_id)
    ask_group (insert_destroy_log group.chat_group_id group.creator)
    for_each (member_ids items) (dismiss me group.chat_group_id group.creator)
    publish_group (un_event id)
    answer (un_ack id)

  un_of : (id : ℕ) → Option ChatGroup → M (Unit {0}) (Unit {0})
  unfolding dissolve
  un_of id none = group_reject un_group_id_error
  un_of id (some group) = do
    me ← gets (λ c. c.account_id)
    when (not (group.creator == me)) (group_reject un_is_not_creator)
    items ← ask e.hash (group_call (get_all_members group.chat_group_id))
    dissolve id group items

  unfoldable pub c2s_un_chat_group : (parsed : Bool) → (group : ℕ) → Session → Session
  unfolding un_of
  c2s_un_chat_group parsed id = run do
    when (not parsed) (group_reject unmarshal_un)
    group ← ask e.chat_group (group_call (select_group id))
    un_of id group

  kick_out : (id user : ℕ) → ChatGroup → Option (List HashItem) → M (Unit {0}) (Unit {0})
  kick_out id user group none = group_reject kick_get_members_failed
  kick_out id user group (some items) = do
    me ← gets (λ c. c.account_id)
    for_each (member_ids items) (queue_to_other me (mq_kick id user))
    ask_group (remove_redis_member user id)
    ask_group (remove_db_member user id)
    ask_group (insert_quit_log group.chat_group_id user group.creator owner_kick_group_member)
    publish_group (cancel_event user id)
    answer (kick_ack id)

  kick_of : (id user : ℕ) → Option ChatGroup → M (Unit {0}) (Unit {0})
  unfolding kick_out
  kick_of id user none = group_reject kick_group_id_error
  kick_of id user (some group) = do
    me ← gets (λ c. c.account_id)
    when (not (group.creator == me)) (group_reject kick_is_not_creator)
    member ← is_group_member e id user
    when (not member) (group_reject kick_user_is_not_member)
    items ← ask e.hash (group_call (get_all_members id))
    kick_out id user group items

  unfoldable pub c2s_chat_group_kick : (parsed : Bool) → (group user : ℕ) → Session → Session
  unfolding kick_of
  c2s_chat_group_kick parsed id user = run do
    when (not parsed) (group_reject unmarshal_kick)
    group ← ask e.chat_group (group_call (select_group id))
    kick_of id user group

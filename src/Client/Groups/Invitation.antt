-- ===== src/Client/Groups/Invitation.antt =====
-- msg-server/client/chatGroup.go: `C2SInviteJoinChatGroup`. The dates of the rows of mysql are left out.
pub mod Friends
pub mod Keeps
use instant_message.Prelude.{
  ℕ, String, Bool, true, false, not, ◌==◌, Option, none, some, List, [], ◌∷◌, ◌++◌, if◌then◌else◌,
  is_some,
}
use instant_message.Prelude.GoMap.{GoMap, insert}
use instant_message.Client.{is_friend}
use instant_message.Client.GroupMessage.{
  Member, MemberRow, HashItem, HashField, present, absent, broken, get_group_info, get_member_field,
  insert_members, set_members, get_all_members, unmarshal_invite, invite_group_id_error,
  invite_is_not_friend, invite_invitee_id_error, invite_has_joined, invite_insert_member_failed,
  invite_get_member_failed, mq_invite, join_event, invite_ack,
}
use instant_message.Client.Session.{
  Call, Env, Session, M, ◌>>=◌, ◌>>◌, pure, when, gets, call, ask, run, group_call, get_brief_info,
}
use instant_message.Client.Groups.{
  group_reject, answer, publish_group, each, for_each, queue_to, member_ids,
}

-- `chatGroupMembers`, `mapInviteFriendSuccess` and `mapInvitees`.
pub record Invited : Type 0 where
  pub rows : List MemberRow
  pub names : GoMap String
  pub hashed : GoMap Member

module _ (e : Env) (group : ℕ) where
  abbrev add_marshalled : Bool → (id : ℕ) (name : String) → Member → Invited → Invited
  add_marshalled false id name m p = p
  add_marshalled true id name m p = record {
    rows =
        p.rows
        ++ record { row_account_id = id; row_chat_group_id = group; row_nick_name = name } ∷ [];
    names = insert id name p.names;
    hashed = insert id m p.hashed;
  }

  -- A friend of whom redis cannot say whether the group has the friend is left out.
  add_absent : (id brief_id : ℕ) (name : String) → HashField → Invited → M (Unit {0}) Invited
  add_absent id brief_id name broken p = pure p
  add_absent id brief_id name present p = group_reject invite_has_joined
  add_absent id brief_id name absent p =
      let m : Member = record {
        user_id = brief_id;
        user_nick_name = name;
        flag = 2;
        user_head_portrait_url = "";
      } in
      pure (add_marshalled (e.marshal_member m) id name m p)

  add_known : (id brief_id : ℕ) → Option String → Invited → M (Unit {0}) Invited
  unfolding add_absent
  add_known id brief_id none p = group_reject invite_invitee_id_error
  add_known id brief_id (some name) p = do
    field ← ask e.hash_field (group_call (get_member_field group id))
    add_absent id brief_id name field p

  invite_one : (id : ℕ) → Invited → M (Unit {0}) Invited
  unfolding add_known
  invite_one id p = do
    friend ← gets (λ c. is_friend c id)
    when (not friend) (group_reject invite_is_not_friend)
    brief_id ← (λ t. pure (e.brief_id t.trace (get_brief_info id)) t)
    name ← ask e.text (get_brief_info id)
    add_known id brief_id name p

  invite_all : List ℕ → Invited → M (Unit {0}) Invited
  unfolding invite_one
  invite_all [] p = pure p
  invite_all (id ∷ ids) p = invite_one id p >>= λ q. invite_all ids q

  -- A member other than the inviter is told of every friend who was invited.
  abbrev tell_member :
      (me : ℕ) (name : String) → GoMap String → (member : ℕ) → List Call → List Call
  tell_member me name names member t =
      if me == member
      then t
      else each (λ x. queue_to (mq_invite group me name x.0 x.1) member) names t

  tell_invited : Invited → Option (List HashItem) → M (Unit {0}) (Unit {0})
  tell_invited p none = group_reject invite_get_member_failed
  tell_invited p (some items) = do
    me ← gets (λ c. c.account_id)
    name ← gets (λ c. c.nick_name)
    for_each (member_ids items) (tell_member me name p.names)
    publish_group (join_event me group)
    answer (invite_ack group)

  store_invited : Invited → M (Unit {0}) (Unit {0})
  unfolding tell_invited
  store_invited p = do
    inserted ← ask e.ok (group_call (insert_members p.rows))
    when (not inserted) (group_reject invite_insert_member_failed)
    stored ← ask e.ok (group_call (set_members group p.hashed))
    when (not stored) (group_reject invite_insert_member_failed)
    items ← ask e.hash (group_call (get_all_members group))
    tell_invited p items

  -- That the inviter is a member of the group is not asked.
  pub c2s_invite_join_chat_group : (parsed : Bool) → (friend_ids : List ℕ) → Session → Session
  unfolding invite_all store_invited
  c2s_invite_join_chat_group parsed friend_ids = run do
    when (not parsed) (group_reject unmarshal_invite)
    known ← ask (λ t c. is_some (e.text t c)) (group_call (get_group_info group))
    when (not known) (group_reject invite_group_id_error)
    p ← invite_all friend_ids (record { rows = []; names = []; hashed = [] })
    store_invited p

-- ===== src/Client/Groups/Events.antt =====
-- msg-server/onlineChatGroupManager/onlineChatGroupManager.go: what `subscribeEvent` makes of the events
-- that the handlers of chatGroup.go publish, and so what these handlers do to the groups of the server.
use instant_message.Prelude.{
  ℕ, ◌≡◌, refl, Bool, true, false, ◌&&◌, ◌==◌, Option, none, some, is_some, List, [], ◌∷◌, arith,
  if◌then◌else◌,
}
use instant_message.Prelude.GoMap.{lookup, lookup-insert, lookup-remove, has_key-remove, remove}
use instant_message.Prelude.Members.{contains, contains-keys}
use instant_message.Groups.{
  Groups, Members, members_of, join_chat_group, cancel_chat_group, cancelled, un_chat_group,
}
use instant_message.Client.{Client, ChatGroup}
use instant_message.Client.GroupMessage.{
  GroupEvent, GroupMq, HashItem, join_event, cancel_event, un_event, chat_event, select_group,
  get_member, get_all_members, mq_kick,
}
use instant_message.Client.Session.{Call, Env, start, publish, group_event, group_call}
use instant_message.Client.Groups.{each, queue_to, member_ids}
use instant_message.Client.Groups.Leaving.{c2s_chat_group_kick, queue_to_other}
use instant_message.Client.Groups.Receiving.{mq_kick_received, mq_un_received}

-- A message of a group changes no group.
abbrev pub on_group_event : GroupEvent → Groups → Groups
on_group_event (join_event account group) s = join_chat_group account group s
on_group_event (cancel_event account group) s = cancel_chat_group account group s
on_group_event (un_event group) s = un_chat_group group s
on_group_event (chat_event m) s = s

-- The groups of the server after the calls of a handler, the latest first, from `s`.
unfoldable pub groups_after : List Call → Groups → Groups
groups_after [] s = s
groups_after (publish (group_event event) ∷ cs) s = on_group_event event (groups_after cs s)
groups_after (c ∷ cs) s = groups_after cs s

-- Whether the server holds the account under the group.
abbrev pub holds : (group account : ℕ) → Groups → Bool
holds group account s = contains account (members_of (lookup group s.local))

module _ (account group k g : ℕ) where
  cancelled-holds :
      (s : Groups) (o : Option Members)
      → lookup group s.local ≡ o
      → holds g k (cancelled o account group s)
        ≡ (if group == g && account == k then false else holds g k s)
  unfolding contains
  cancelled-holds s none p = ground (arith, p)
  cancelled-holds s (some ms) p = ground (
    arith,
    p,
    lookup-insert group g (remove account ms) s.local,
    lookup-remove group g s.local,
    contains-keys k (remove account ms),
    contains-keys k ms,
    has_key-remove account k ms,
  )

groups_after-others :
    (me : ℕ) (m : GroupMq) (members : List ℕ) (t : List Call) (s : Groups)
    → groups_after (each (queue_to_other me m) members t) s ≡ groups_after t s
unfolding groups_after
groups_after-others me m [] t s = refl
groups_after-others me m (id ∷ members) t s = ground (
  arith,
  groups_after-others me m members t s,
  groups_after-others me m members (queue_to m id t) s,
)

module _ (e : Env) (id user : ℕ) (c : Client) (group : ChatGroup) (items : List HashItem)
    (s : Groups) where
  abbrev pub asked_member : List Call
  asked_member = group_call (get_member id user) ∷ group_call (select_group id) ∷ []

  -- Where the creator of a group kicks a member out of it, redis giving the members, the server of the
  -- creator holds that user under the group no more, and every other user as before.
  pub kick_leaves :
      (e.chat_group [] (group_call (select_group id)) ≡ some group)
      → group.creator ≡ c.account_id
      → is_some (e.member (group_call (select_group id) ∷ []) (group_call (get_member id user)))
        ≡ true
      → e.hash asked_member (group_call (get_all_members id)) ≡ some items
      → (g k : ℕ)
      → holds g k (groups_after (c2s_chat_group_kick e true id user (start c)).trace s)
        ≡ (if id == g && user == k then false else holds g k s)
  unfolding c2s_chat_group_kick groups_after cancel_chat_group
  kick_leaves found mine known listed g k =
      let asked = group_call (get_all_members id) ∷ asked_member in
      ground (
        arith,
        groups_after-others c.account_id (mq_kick id user) (member_ids items) asked s,
        cancelled-holds user id k g s (lookup id s.local) refl,
      )

-- A user who is told of being kicked out of a group, or a member who is told that the group is
-- dissolved, stays where the server holds the user: neither handler changes the groups of the server.
pub kicked_elsewhere_stays :
    (parsed : Bool) (group user : ℕ) (c : Client) (s : Groups)
    → (groups_after (mq_kick_received parsed group user (start c)).trace s ≡ s)
      × (groups_after (mq_un_received parsed group (start c)).trace s ≡ s)
unfolding mq_kick_received mq_un_received groups_after
kicked_elsewhere_stays parsed group user c s = ground arith

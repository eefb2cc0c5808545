-- ===== src/Client/Groups/Invitation/Friends.antt =====
-- Whom `C2SInviteJoinChatGroup` (chatGroup.go) enters into a group.
use instant_message.Prelude.{
  ℕ, String, ◌≡◌, refl, Bool, true, Option, none, some, List, [], ◌∷◌, ◌++◌, arith,
}
use instant_message.Prelude.GoMap.{GoMap, insert}
use instant_message.Client.{Client, is_friend}
use instant_message.Client.GroupMessage.{
  Member, MemberRow, HashItem, insert_members, set_members, get_group_info, mq_invite,
  get_all_members,
}
use instant_message.Client.Session.{
  Call, Env, Session, get_brief_info, start, mq, mq_group, group_call,
}
use instant_message.Client.Flows.{Yields, Yields-bind, Within, Within-final, Keeping}
use instant_message.Client.Groups.{each, queue_to, member_ids}
use instant_message.Client.Groups.Invitation.{
  Invited, tell_member, add_known, invite_one, invite_all, tell_invited, store_invited,
  c2s_invite_join_chat_group,
}

abbrev FriendRows : Client → List MemberRow → Type 0
FriendRows c [] = Unit
FriendRows c (row ∷ rows) = (is_friend c row.row_account_id ≡ true) × FriendRows c rows

abbrev pub FriendKeys : {A : Type 0} → Client → GoMap A → Type 0
FriendKeys c [] = Unit
FriendKeys c ((id, a) ∷ m) = (is_friend c id ≡ true) × FriendKeys c m

FriendRows-append :
    (c : Client) (rows : List MemberRow) (row : MemberRow)
    → FriendRows c rows
    → is_friend c row.row_account_id ≡ true
    → FriendRows c (rows ++ row ∷ [])
FriendRows-append c [] row h f = (f, tt)
FriendRows-append c (r ∷ rows) row (h, hs) f = (h, FriendRows-append c rows row hs f)

FriendKeys-insert :
    {A : Type 0} (c : Client) (id : ℕ) (name : A) (names : GoMap A)
    → is_friend c id ≡ true
    → FriendKeys c names
    → FriendKeys c (insert id name names)
unfolding insert
FriendKeys-insert c id name [] f h = (f, tt)
FriendKeys-insert c id name ((j, v) ∷ names) f h =
    ground (arith, FriendKeys-insert c id name names f)

-- Whoever is entered into a group, in mysql or in the redis hash of its members, or announced as invited, is a friend of `c`.
abbrev pub OnlyFriends : Client → List Call → Type 0
OnlyFriends c [] = Unit
OnlyFriends c (mq to (mq_group (mq_invite g i n id name)) ∷ cs) =
    (is_friend c id ≡ true) × OnlyFriends c cs
OnlyFriends c (group_call (insert_members rows) ∷ cs) = FriendRows c rows × OnlyFriends c cs
OnlyFriends c (group_call (set_members g hashed) ∷ cs) = FriendKeys c hashed × OnlyFriends c cs
OnlyFriends c (k ∷ cs) = OnlyFriends c cs

module _ (c : Client) (group me : ℕ) (my_name : String) where
  OnlyFriends-names :
      (member : ℕ) (names : GoMap String) (t : List Call)
      → FriendKeys c names
      → OnlyFriends c t
      → OnlyFriends c (each (λ x. queue_to (mq_invite group me my_name x.0 x.1) member) names t)
  OnlyFriends-names member [] t f h = h
  OnlyFriends-names member ((id, name) ∷ names) t (f, fs) h =
      OnlyFriends-names member names _ fs (f, h)

  OnlyFriends-members :
      (e : Env) (names : GoMap String) (members : List ℕ) (t : List Call)
      → FriendKeys c names
      → OnlyFriends c t
      → OnlyFriends c (each (tell_member e group me my_name names) members t)
  OnlyFriends-members e names [] t f h = h
  OnlyFriends-members e names (m ∷ members) t f h =
      OnlyFriends-members e names members _ f (ground (arith, OnlyFriends-names m names t f h))

module _ (e : Env) (c : Client) (group : ℕ) where
  abbrev Gathers : Invited → Session → Type 0
  Gathers p t =
      FriendRows c p.rows
      × FriendKeys c p.names
      × FriendKeys c p.hashed
      × Keeping c (OnlyFriends c) t

  add_known-Gathers :
      (id brief_id : ℕ) (name : Option String) (p : Invited) (s : Session)
      → is_friend c id ≡ true
      → Gathers p s
      → Yields Gathers (λ r. Keeping c (OnlyFriends c)) (add_known e group id brief_id name p s)
  unfolding add_known
  add_known-Gathers id brief_id none p s f h = ground arith
  add_known-Gathers id brief_id (some name) p s f h =
      let row : MemberRow = record {
        row_account_id = id;
        row_chat_group_id = group;
        row_nick_name = name;
      } in
      let m : Member = record {
        user_id = brief_id;
        user_nick_name = name;
        flag = 2;
        user_head_portrait_url = "";
      } in
      ground (
        arith,
        FriendKeys-insert c id name p.names f,
        FriendKeys-insert c id m p.hashed f,
        FriendRows-append c p.rows row,
      )

  invite_one-Gathers :
      (id : ℕ) (p : Invited) (s : Session)
      → Gathers p s
      → Yields Gathers (λ r. Keeping c (OnlyFriends c)) (invite_one e group id p s)
  unfolding invite_one
  invite_one-Gathers id p s h =
      let asked = get_brief_info id in
      ground (
        arith,
        add_known-Gathers id (e.brief_id s.trace asked) (e.text s.trace asked) p
            (record s { trace = asked ∷ s.trace }),
      )

  invite_all-Gathers :
      (ids : List ℕ) (p : Invited) (s : Session)
      → Gathers p s
      → Yields Gathers (λ r. Keeping c (OnlyFriends c)) (invite_all e group ids p s)
  unfolding invite_all
  invite_all-Gathers [] p s h = h
  invite_all-Gathers (id ∷ ids) p s h =
      Yields-bind (λ r. Keeping c (OnlyFriends c)) Gathers Gathers (invite_one e group id p)
        (λ q. invite_all e group ids q) s (invite_one-Gathers id p s h) (invite_all-Gathers ids)

  tell_invited-OnlyFriends :
      (p : Invited) (items : Option (List HashItem)) (s : Session)
      → Gathers p s
      → Within (Keeping c (OnlyFriends c)) (tell_invited e group p items s)
  unfolding tell_invited
  tell_invited-OnlyFriends p none s h = ground arith
  tell_invited-OnlyFriends p (some items) s h = ground (
    arith,
    OnlyFriends-members c group c.account_id c.nick_name e p.names (member_ids items) s.trace,
  )

  store_invited-OnlyFriends :
      (p : Invited) (s : Session)
      → Gathers p s
      → Within (Keeping c (OnlyFriends c)) (store_invited e group p s)
  unfolding store_invited
  store_invited-OnlyFriends p s h =
      let stored =
        group_call (set_members group p.hashed) ∷ group_call (insert_members p.rows) ∷ s.trace in
      let asked = group_call (get_all_members group) in
      ground (
        arith,
        tell_invited-OnlyFriends p (e.hash stored asked) (record s { trace = asked ∷ stored }),
      )

  -- Whom a user enters into a group by an invitation, in mysql and in redis, and who is announced to its members as invited,
  -- is a friend of the user. The handler leaves the client as it was.
  pub invite-OnlyFriends :
      (parsed : Bool) (ids : List ℕ)
      → Keeping c (OnlyFriends c) (c2s_invite_join_chat_group e group parsed ids (start c))
  unfolding c2s_invite_join_chat_group
  invite-OnlyFriends parsed ids =
      let asked = record (start c) { trace = group_call (get_group_info group) ∷ [] } in
      let nobody : Invited = record { rows = []; names = []; hashed = [] } in
      let rest =
        Yields-bind (λ r. Keeping c (OnlyFriends c)) Gathers (λ r. Keeping c (OnlyFriends c))
          (invite_all e group ids nobody) (store_invited e group) asked
          (invite_all-Gathers ids nobody asked (tt, tt, tt, (refl, tt)))
          store_invited-OnlyFriends in
      ground (arith, Within-final (Keeping c (OnlyFriends c)) _ rest)

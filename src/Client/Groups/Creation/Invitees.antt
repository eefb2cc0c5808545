-- ===== src/Client/Groups/Creation/Invitees.antt =====
-- Whom `C2SCreateChatGroup` (chatGroup.go) enters into a new group and tells of it.
use instant_message.Prelude.{ℕ, String, ◌≡◌, ◌≢◌, refl, Bool, true, List, [], ◌∷◌, arith}
use instant_message.Prelude.GoMap.{keys}
use instant_message.Client.{Client, ChatGroup, is_friend}
use instant_message.Client.GroupMessage.{
  CreateReq, MemberRow, insert_members, insert_chat_group, set_members, insert_create_log,
  set_group_info, lock_creation, mq_create_chat_group,
}
use instant_message.Client.Session.{
  Call, Env, Session, start, mq, mq_group, group_call, tx_begin, tx_commit,
}
use instant_message.Client.Flows.{Yields-bind, Within, Keeping}
use instant_message.Client.Groups.{each, queue_to}
use instant_message.Client.Groups.Creation.Collecting.{
  Friends, Owned, Gathered, Listed, member_rows-Listed, create_chat_group-Within,
}
use instant_message.Client.Groups.Creation.{
  Picked, member_rows, announce_group, create_in_tx, store_group, create_picked, create_locked,
  c2s_create_chat_group,
}

-- Whoever is queued the news of a new group is a friend of `c` and not `c` itself; whoever is entered
-- into a group, in mysql or in the redis hash of its members, is `c`, who comes first, or a friend.
abbrev pub Invites : Client → List Call → Type 0
Invites c [] = Unit
Invites c (mq to (mq_group (mq_create_chat_group g n p)) ∷ cs) =
    (is_friend c to ≡ true) × (to ≢ c.account_id) × Invites c cs
Invites c (group_call (insert_members rows) ∷ cs) = Listed c rows × Invites c cs
Invites c (group_call (set_members g hashed) ∷ cs) = Owned c hashed × Invites c cs
Invites c (k ∷ cs) = Invites c cs

Invites-each :
    (c : Client) (group : ℕ) (name pic : String) (ids : List ℕ) (t : List Call)
    → Friends c ids
    → Invites c t
    → Invites c (each (queue_to (mq_create_chat_group group name pic)) ids t)
Invites-each c group name pic [] t f h = h
Invites-each c group name pic (id ∷ ids) t (f, n, fs) h =
    Invites-each c group name pic ids _ fs (f, n, h)

module _ (e : Env) (c : Client) where
  announce_group-Invites :
      (group : ChatGroup) (p : Picked) (s : Session)
      → Gathered c p
      → Keeping c (Invites c) s
      → Within (Keeping c (Invites c)) (announce_group e c.account_id group p s)
  unfolding announce_group
  announce_group-Invites group p s f h =
      let asked =
        group_call (set_group_info group)
        ∷ group_call (insert_create_log group.chat_group_id c.account_id)
        ∷ s.trace in
      ground (
        arith,
        Invites-each c group.chat_group_id group.group_name group.pic (keys p.invitees)
            (group_call (set_members group.chat_group_id p.hashed) ∷ asked) f.0,
        f,
      )

  store_group-Invites :
      (group : ChatGroup) (p : Picked) (rows : List MemberRow) (s : Session)
      → Gathered c p
      → Listed c rows
      → Keeping c (Invites c) s
      → Within (Keeping c (Invites c)) (store_group e c.account_id group p rows s)
  unfolding store_group create_in_tx
  store_group-Invites group p rows s f l h =
      let inserted =
        group_call (insert_members rows)
        ∷ group_call (insert_chat_group group)
        ∷ tx_begin
        ∷ s.trace in
      ground (arith, announce_group-Invites group p (record s { trace = tx_commit ∷ inserted }) f)

  create_locked-Invites :
      (req : CreateReq) (p : Picked) (s : Session)
      → Gathered c p
      → Keeping c (Invites c) s
      → Within (Keeping c (Invites c)) (create_locked e c.account_id c.nick_name req p s)
  unfolding create_locked
  create_locked-Invites req p s f h =
      Yields-bind (λ r. Keeping c (Invites c)) (λ rows t. Listed c rows × Keeping c (Invites c) t)
        (λ r. Keeping c (Invites c)) (member_rows e _ (keys p.invitees) _)
        (store_group e c.account_id _ p) _
        (member_rows-Listed e c (Invites c) (λ t id q. q) (λ r. Keeping c (Invites c)) _
          (keys p.invitees) _ _ f.0 (refl, tt) h)
        (λ rows t (l, k). store_group-Invites _ p rows t f l k)

  create_picked-Invites :
      (req : CreateReq) (p : Picked) (s : Session)
      → Gathered c p
      → Keeping c (Invites c) s
      → Within (Keeping c (Invites c)) (create_picked e c.account_id c.nick_name req p s)
  unfolding create_picked
  create_picked-Invites req p s f h =
      let locked = record s { trace = group_call (lock_creation c.account_id) ∷ s.trace } in
      ground (arith, create_locked-Invites req p locked f h)

  -- Whom a user enters into a new group, in mysql and in redis, and whom the handler tells of it, are the user's friends; the
  -- user is entered too, and not told. The handler leaves the client as it was.
  pub create_chat_group-Invites :
      (parsed : Bool) (req : CreateReq)
      → Keeping c (Invites c) (c2s_create_chat_group e parsed req (start c))
  create_chat_group-Invites parsed req =
      create_chat_group-Within e (start c) (Invites c) (λ t id q. q) (λ t r q. q) (Invites c)
        (λ t q. q) req (create_picked-Invites req) parsed tt

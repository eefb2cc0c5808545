-- ===== src/Client/Groups/Creation/Settling.antt =====
-- How the transaction of `C2SCreateChatGroup` (chatGroup.go) ends.
use instant_message.Prelude.{ℕ, ◌≡◌, ◌≢◌, refl, sym, ◌∙◌, Bool, List, [], ◌∷◌, arith}
use instant_message.Prelude.GoMap.{keys}
use instant_message.Client.{Client, ChatGroup}
use instant_message.Client.GroupMessage.{
  CreateReq, MemberRow, GroupMq, insert_members, insert_chat_group, set_group_info, set_members,
  insert_create_log, lock_creation, mq_create_chat_group,
}
use instant_message.Client.Session.{Call, Env, Session, start, group_call, tx_begin, tx_commit}
use instant_message.Client.Flows.{Yields-bind, Within, Keeping}
use instant_message.Client.Deletion.Transaction.{tx_state, idle, settled, left_open}
use instant_message.Client.Groups.{each, queue_to}
use instant_message.Client.Groups.Creation.{
  Picked, member_rows, store_group, create_locked, create_picked, c2s_create_chat_group,
  announce_group, create_in_tx,
}
use instant_message.Client.Groups.Creation.Collecting.{
  Gathered, Listed, member_rows-Listed, create_chat_group-Within,
}

pub tx_state-each :
    (e : Env) (m : GroupMq) (ids : List ℕ) (t : List Call)
    → tx_state e (each (queue_to m) ids t) ≡ tx_state e t
tx_state-each e m [] t = refl
tx_state-each e m (id ∷ ids) t = tx_state-each e m ids _

idle_not_open : idle ≢ left_open
idle_not_open p = absurd (ground (arith, p))

module _ (e : Env) (c : Client) where
  abbrev Idle : List Call → Type 0
  Idle t = tx_state e t ≡ idle

  abbrev Closed : List Call → Type 0
  Closed t = tx_state e t ≢ left_open

  abbrev Settled : List Call → Type 0
  Settled t = tx_state e t ≡ settled

  announce_group-Settled :
      (group : ChatGroup) (p : Picked) (s : Session)
      → Keeping c Settled s
      → Within (Keeping c Settled) (announce_group e c.account_id group p s)
  unfolding announce_group
  announce_group-Settled group p s h =
      let asked =
        group_call (set_group_info group)
        ∷ group_call (insert_create_log group.chat_group_id c.account_id)
        ∷ s.trace in
      ground (
        arith,
        tx_state-each e (mq_create_chat_group group.chat_group_id group.group_name group.pic)
            (keys p.invitees) (group_call (set_members group.chat_group_id p.hashed) ∷ asked),
      )

  store_group-Closed :
      (group : ChatGroup) (p : Picked) (rows : List MemberRow) (s : Session)
      → Keeping c Idle s
      → Within (Keeping c Closed) (store_group e c.account_id group p rows s)
  unfolding store_group create_in_tx
  store_group-Closed group p rows s h =
      let inserted =
        group_call (insert_members rows)
        ∷ group_call (insert_chat_group group)
        ∷ tx_begin
        ∷ s.trace in
      ground (arith, announce_group-Settled group p (record s { trace = tx_commit ∷ inserted }))

  create_locked-Closed :
      (req : CreateReq) (p : Picked) (s : Session)
      → Gathered c p
      → Keeping c Idle s
      → Within (Keeping c Closed) (create_locked e c.account_id c.nick_name req p s)
  unfolding create_locked
  create_locked-Closed req p s f h =
      Yields-bind (λ r. Keeping c Closed) (λ rows t. Listed c rows × Keeping c Idle t)
        (λ r. Keeping c Closed) (member_rows e _ (keys p.invitees) _)
        (store_group e c.account_id _ p) _
        (member_rows-Listed e c Idle (λ t id q. q) (λ r. Keeping c Closed) _ (keys p.invitees) _ _
          f.0 (refl, tt) h)
        (λ rows t (l, k). store_group-Closed _ p rows t k)

  create_picked-Closed :
      (req : CreateReq) (p : Picked) (s : Session)
      → Gathered c p
      → Keeping c Idle s
      → Within (Keeping c Closed) (create_picked e c.account_id c.nick_name req p s)
  unfolding create_picked
  create_picked-Closed req p s f h =
      let locked = record s { trace = group_call (lock_creation c.account_id) ∷ s.trace } in
      ground (arith, create_locked-Closed req p locked f h)

  -- However the creation of a group ends, and whatever fails on the way, the transaction that it begins
  -- is not closed before it is committed or rolled back.
  pub create_chat_group_settles :
      (parsed : Bool) (req : CreateReq)
      → tx_state e (c2s_create_chat_group e parsed req (start c)).trace ≢ left_open
  create_chat_group_settles parsed req =
      (create_chat_group-Within e (start c) Idle (λ t id q. q) (λ t r q. q) Closed
        (λ t k o. idle_not_open (sym k ∙ o)) req (create_picked-Closed req) parsed refl).1

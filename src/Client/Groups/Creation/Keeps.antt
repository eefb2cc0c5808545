-- ===== src/Client/Groups/Creation/Keeps.antt =====
-- `C2SCreateChatGroup` (chatGroup.go) leaves the client as it was.
use instant_message.Prelude.{◌≡◌, refl, Bool, List, ◌∷◌, arith}
use instant_message.Prelude.GoMap.{keys}
use instant_message.Client.{Client, ChatGroup}
use instant_message.Client.GroupMessage.{CreateReq, MemberRow, lock_creation}
use instant_message.Client.Session.{Call, Env, Session, group_call}
use instant_message.Client.Flows.{Yields-bind, Within, Keeping}
use instant_message.Client.Groups.Creation.{
  Picked, member_rows, store_group, create_locked, create_picked, c2s_create_chat_group,
}
use instant_message.Client.Groups.Creation.Collecting.{
  Gathered, Listed, member_rows-Listed, create_chat_group-Within,
}

module _ (e : Env) (c : Client) where
  abbrev Any : List Call → Type 0
  Any t = Unit

  store_group-Any :
      (group : ChatGroup) (p : Picked) (rows : List MemberRow) (s : Session)
      → Keeping c Any s
      → Within (Keeping c Any) (store_group e c.account_id group p rows s)
  unfolding store_group
  store_group-Any group p rows s h = ground arith

  create_locked-Any :
      (req : CreateReq) (p : Picked) (s : Session)
      → Gathered c p
      → Keeping c Any s
      → Within (Keeping c Any) (create_locked e c.account_id c.nick_name req p s)
  unfolding create_locked
  create_locked-Any req p s f h =
      Yields-bind (λ r. Keeping c Any) (λ rows t. Listed c rows × Keeping c Any t)
        (λ r. Keeping c Any) (member_rows e _ (keys p.invitees) _) (store_group e c.account_id _ p)
        _
        (member_rows-Listed e c Any (λ t id q. tt) (λ r. Keeping c Any) _ (keys p.invitees) _ _ f.0
          (refl, tt) h)
        (λ rows t (l, k). store_group-Any _ p rows t k)

  create_picked-Any :
      (req : CreateReq) (p : Picked) (s : Session)
      → Gathered c p
      → Keeping c Any s
      → Within (Keeping c Any) (create_picked e c.account_id c.nick_name req p s)
  unfolding create_picked
  create_picked-Any req p s f h =
      let locked = record s { trace = group_call (lock_creation c.account_id) ∷ s.trace } in
      ground (arith, create_locked-Any req p locked f h)

pub create-client :
    (e : Env) (parsed : Bool) (req : CreateReq) (s : Session)
    → (c2s_create_chat_group e parsed req s).client ≡ s.client
create-client e parsed req s =
    (create_chat_group-Within e s (Any e s.client) (λ t id q. tt) (λ t r q. tt) (Any e s.client)
      (λ t q. tt) req (create_picked-Any e s.client req) parsed tt).0

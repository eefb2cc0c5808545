-- ===== src/Client/Groups/Invitation/Keeps.antt =====
-- `C2SInviteJoinChatGroup` (chatGroup.go) leaves the client as it was.
use instant_message.Prelude.{ℕ, ◌≡◌, refl, Bool, List, [], ◌∷◌, arith}
use instant_message.Client.{Client}
use instant_message.Client.GroupMessage.{get_group_info}
use instant_message.Client.Session.{Env, Session, group_call}
use instant_message.Client.Flows.{Yields-bind, Within, Within-final}
use instant_message.Client.Groups.Invitation.{
  Invited, invite_one, invite_all, store_invited, c2s_invite_join_chat_group,
}

module _ (e : Env) (group : ℕ) (c : Client) where
  abbrev Same : Session → Type 0
  Same t = t.client ≡ c

  invite_one-Same :
      (id : ℕ) (p : Invited) (s : Session) → Same s → Within Same (invite_one e group id p s)
  unfolding invite_one
  invite_one-Same id p s h = ground arith

  invite_all-Same :
      (ids : List ℕ) (p : Invited) (s : Session) → Same s → Within Same (invite_all e group ids p s)
  unfolding invite_all
  invite_all-Same [] p s h = h
  invite_all-Same (id ∷ ids) p s h =
      Yields-bind (λ r. Same) (λ p. Same) (λ p. Same) (invite_one e group id p)
        (λ q. invite_all e group ids q) s (invite_one-Same id p s h) (invite_all-Same ids)

  store_invited-Same :
      (p : Invited) (s : Session) → Same s → Within Same (store_invited e group p s)
  unfolding store_invited
  store_invited-Same p s h = ground arith

pub invite-client :
    (e : Env) (group : ℕ) (parsed : Bool) (ids : List ℕ) (s : Session)
    → (c2s_invite_join_chat_group e group parsed ids s).client ≡ s.client
unfolding c2s_invite_join_chat_group
invite-client e group parsed ids s =
    let asked = record s { trace = group_call (get_group_info group) ∷ s.trace } in
    let nobody : Invited = record { rows = []; names = []; hashed = [] } in
    let rest =
      Yields-bind (λ r. Same e group s.client) (λ p. Same e group s.client)
        (λ r. Same e group s.client) (invite_all e group ids nobody) (store_invited e group) asked
        (invite_all-Same e group s.client ids nobody asked refl)
        (store_invited-Same e group s.client) in
    ground (arith, Within-final (Same e group s.client) _ rest)

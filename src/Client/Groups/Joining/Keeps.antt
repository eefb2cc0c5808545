-- ===== src/Client/Groups/Joining/Keeps.antt =====
-- The requests to join a group and their answers (chatGroup.go) leave the client as it was.
use instant_message.Prelude.{ℕ, ◌≡◌, refl, Bool, Option, none, some, List, [], ◌∷◌, arith}
use instant_message.Client.{Client, ChatGroup}
use instant_message.Client.GroupMessage.{
  JoinReq, AgreeReq, RefuseReq, Member, HashItem, chat_group_info, get_all_members, select_group,
  exists_group,
}
use instant_message.Client.Session.{Env, Session, group_call}
use instant_message.Client.Flows.{Yields-bind, Within}
use instant_message.Client.Groups.{answer, member_values}
use instant_message.Client.Groups.Joining.{
  c2s_req_join_chat_group, c2s_agree_join_chat_group, c2s_refuse_join_chat_group,
  c2s_chat_group_info, describe, list_members, show_group,
}

module _ (e : Env) (parsed : Bool) (s : Session) where
  pub req_join-client : (req : JoinReq) → (c2s_req_join_chat_group e parsed req s).client ≡ s.client
  unfolding c2s_req_join_chat_group
  req_join-client req = ground arith

  pub agree_join-client :
      (req : AgreeReq) → (c2s_agree_join_chat_group e parsed req s).client ≡ s.client
  unfolding c2s_agree_join_chat_group
  agree_join-client req = ground arith

  pub refuse_join-client :
      (req : RefuseReq) → (c2s_refuse_join_chat_group e parsed req s).client ≡ s.client
  unfolding c2s_refuse_join_chat_group
  refuse_join-client req = ground arith

module _ (e : Env) (c : Client) where
  abbrev Same : Session → Type 0
  Same t = t.client ≡ c

  describe-Same :
      (values : List (Option Member)) (shown : List Member) (s : Session)
      → Same s
      → Within Same (describe e values shown s)
  unfolding describe
  describe-Same [] shown s h = h
  describe-Same (none ∷ rest) shown s h = describe-Same rest shown s h
  describe-Same (some m ∷ rest) shown s h = describe-Same rest _ _ h

  list_members-Same :
      (group : ChatGroup) (items : Option (List HashItem)) (s : Session)
      → Same s
      → Within Same (list_members e group items s)
  unfolding list_members
  list_members-Same group none s h = h
  list_members-Same group (some items) s h =
      Yields-bind (λ r. Same) (λ shown. Same) (λ r. Same) (describe e (member_values items) [])
        (λ shown. answer (chat_group_info group shown)) s
        (describe-Same (member_values items) [] s h) (λ shown t k. k)

  show_group-Same :
      (id : ℕ) (group : Option ChatGroup) (s : Session)
      → Same s
      → Within Same (show_group e id group s)
  unfolding show_group
  show_group-Same id none s h = h
  show_group-Same id (some group) s h =
      list_members-Same group (e.hash s.trace (group_call (get_all_members id))) _ h

pub chat_group_info-client :
    (e : Env) (parsed : Bool) (id : ℕ) (s : Session)
    → (c2s_chat_group_info e parsed id s).client ≡ s.client
unfolding c2s_chat_group_info
chat_group_info-client e parsed id s =
    let exists = group_call (exists_group id) ∷ s.trace in
    let asked = group_call (select_group id) in
    ground (
      arith,
      show_group-Same e s.client id (e.chat_group exists asked)
          (record s { trace = asked ∷ exists }) refl,
    )

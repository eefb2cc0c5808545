-- ===== src/Client/Groups/Leaving/Telling.antt =====
-- Whom the dissolution of a group and the departure of a member (chatGroup.go) are told to.
use instant_message.Prelude.{
  ℕ, ◌≡◌, refl, Bool, true, false, not, ◌&&◌, ◌||◌, ◌==◌, some, List, [], ◌∷◌, arith, if◌then◌else◌,
}
use instant_message.Prelude.Members.{contains}
use instant_message.Client.{Client, ChatGroup}
use instant_message.Client.GroupMessage.{
  HashItem, select_group, get_all_members, mq_un, insert_quit_log, owner_un_chat_group,
  remove_db_members, remove_db_group, remove_redis_members, insert_destroy_log,
}
use instant_message.Client.Session.{Call, Env, start, mq, mq_group, group_call}
use instant_message.Client.Groups.{each, member_ids}
use instant_message.Client.Groups.Leaving.{dismiss, c2s_un_chat_group}

-- Whether the user is queued the news that the group is dissolved, and whether the departure of the
-- user is recorded as caused by that.
abbrev pub told_of_end : (group user : ℕ) → List Call → Bool
told_of_end group user [] = false
told_of_end group user (mq to (mq_group (mq_un g)) ∷ cs) =
    (to == user && g == group) || told_of_end group user cs
told_of_end group user (c ∷ cs) = told_of_end group user cs

abbrev pub end_recorded : (group user : ℕ) → List Call → Bool
end_recorded group user [] = false
end_recorded group user (group_call (insert_quit_log g m o owner_un_chat_group) ∷ cs) =
    (m == user && g == group) || end_recorded group user cs
end_recorded group user (c ∷ cs) = end_recorded group user cs

module _ (me group owner user : ℕ) where
  told-dismiss :
      (members : List ℕ) (t : List Call)
      → told_of_end group user (each (dismiss me group owner) members t)
        ≡ (if contains user members && not (me == user) then true else told_of_end group user t)
  unfolding contains
  told-dismiss [] t = refl
  told-dismiss (m ∷ members) t = ground (arith, told-dismiss members (dismiss me group owner m t))

  recorded-dismiss :
      (members : List ℕ) (t : List Call)
      → end_recorded group user (each (dismiss me group owner) members t)
        ≡ (if contains user members then true else end_recorded group user t)
  unfolding contains
  recorded-dismiss [] t = refl
  recorded-dismiss (m ∷ members) t =
      ground (arith, recorded-dismiss members (dismiss me group owner m t))

module _ (e : Env) (id user : ℕ) (c : Client) (group : ChatGroup) (items : List HashItem) where
  -- Where the creator dissolves a group whose members redis gives, the members but the creator are told
  -- of it, and nobody else; the departure of every member, the creator included, is recorded.
  pub un_tells_members :
      (e.chat_group [] (group_call (select_group id)) ≡ some group)
      → group.creator ≡ c.account_id
      → e.hash
          (group_call (select_group id) ∷ [])
          (group_call (get_all_members group.chat_group_id))
        ≡ some items
      → let t = (c2s_un_chat_group e true id (start c)).trace in
        (told_of_end group.chat_group_id user t
          ≡ (contains user (member_ids items) && not (c.account_id == user)))
        × (end_recorded group.chat_group_id user t ≡ contains user (member_ids items))
  unfolding c2s_un_chat_group
  un_tells_members found mine listed =
      let erased =
        group_call (insert_destroy_log group.chat_group_id group.creator)
        ∷ group_call (remove_redis_members group.chat_group_id)
        ∷ group_call (remove_db_group group.chat_group_id)
        ∷ group_call (remove_db_members group.chat_group_id)
        ∷ group_call (get_all_members group.chat_group_id)
        ∷ group_call (select_group id)
        ∷ [] in
      ground (
        arith,
        told-dismiss c.account_id group.chat_group_id group.creator user (member_ids items) erased,
        recorded-dismiss c.account_id group.chat_group_id group.creator user (member_ids items)
            erased,
      )

-- ===== src/Client/Groups/Leaving/Authority.antt =====
-- Who may dissolve a group, kick a member out or leave (chatGroup.go).
use instant_message.Prelude.{
  ℕ, ◌≡◌, Bool, true, false, ◌==◌, Option, none, some, is_some, List, [], ◌∷◌, arith,
}
use instant_message.Client.{Client, ChatGroup}
use instant_message.Client.GroupMessage.{select_group, get_member, cancel_is_creator}
use instant_message.Client.Session.{Call, Env, start, send, error_code, group_error, group_call}
use instant_message.Client.Groups.Leaving.{c2s_cancel_chat_group}

-- Whether anything happened but that mysql was asked for a group and that the user was told of an error.
abbrev pub acts : List Call → Bool
acts [] = false
acts (send (error_code error ts) ∷ cs) = acts cs
acts (group_call (select_group id) ∷ cs) = acts cs
acts (c ∷ cs) = true

-- Whether mysql gives a group, and it was created by the user.
abbrev pub is_own : (me : ℕ) → Option ChatGroup → Bool
is_own me none = false
is_own me (some group) = group.creator == me

module _ (e : Env) (id : ℕ) (c : Client) (group : ChatGroup) where
  -- The creator cannot leave the group.
  pub creator_stays :
      (e.chat_group [] (group_call (select_group id)) ≡ some group)
      → group.creator ≡ c.account_id
      → is_some
          (e.member (group_call (select_group id) ∷ []) (group_call (get_member id c.account_id)))
        ≡ true
      → c2s_cancel_chat_group e true id (start c) ≡ (record {
        client = c;
        trace =
            send (error_code (group_error cancel_is_creator) 0)
            ∷ group_call (get_member id c.account_id)
            ∷ group_call (select_group id)
            ∷ [];
      })
  unfolding c2s_cancel_chat_group
  creator_stays found mine member = ground arith

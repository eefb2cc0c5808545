-- ===== src/Client/Groups/Joining/Authority.antt =====
-- Who may answer a request to join a group (chatGroup.go).
use instant_message.Prelude.{◌≡◌, ◌≢◌, Bool, true, some, [], ◌∷◌, arith}
use instant_message.Client.{Client, ChatGroup}
use instant_message.Client.GroupMessage.{AgreeReq, RefuseReq, select_group, agree_is_not_manager}
use instant_message.Client.Session.{Env, start, send, error_code, group_error, group_call}
use instant_message.Client.Groups.Joining.{c2s_agree_join_chat_group, c2s_refuse_join_chat_group}

module _ (e : Env) (req : AgreeReq) (c : Client) (group : ChatGroup) where
  -- A request is agreed to by the creator of the group only: for another user, all that happens is that
  -- mysql is asked for the group and that the user is told.
  pub agree_only_creator :
      (e.chat_group [] (group_call (select_group req.agree_group_id)) ≡ some group)
      → group.creator ≢ c.account_id
      → c2s_agree_join_chat_group e true req (start c) ≡ (record {
        client = c;
        trace =
            send (error_code (group_error agree_is_not_manager) 0)
            ∷ group_call (select_group req.agree_group_id)
            ∷ [];
      })
  unfolding c2s_agree_join_chat_group
  agree_only_creator found other = ground arith

-- A refusal asks nothing of who refuses: for any two users the handler makes the same calls.
pub refuse_asks_no_creator :
    (e : Env) (parsed : Bool) (req : RefuseReq) (c d : Client)
    → (c2s_refuse_join_chat_group e parsed req (start c)).trace
      ≡ (c2s_refuse_join_chat_group e parsed req (start d)).trace
unfolding c2s_refuse_join_chat_group
refuse_asks_no_creator e parsed req c d = ground arith

-- ===== src/Client/Groups/Joining/Settling.antt =====
-- How the transactions of `C2SReqJoinChatGroup` and `C2SAgreeJoinChatGroup` (chatGroup.go) end.
use instant_message.Prelude.{ℕ, ◌≡◌, ◌≢◌, Bool, Option, none, some, List, [], ◌∷◌, arith}
use instant_message.Client.{Client}
use instant_message.Client.GroupMessage.{
  JoinReq, AgreeReq, MemberRow, mq_agree_join, get_record_members, insert_members, select_group,
  is_record_member, select_join_log, update_join_log, process_join_log,
}
use instant_message.Client.Session.{
  Env, Session, start, group_call, mq, mq_group, tx_begin, tx_commit,
}
use instant_message.Client.Deletion.Transaction.{Tx, tx_state, idle, settled, left_open}
use instant_message.Client.Flows.{Within}
use instant_message.Client.Groups.Joining.{
  tell_members, welcome, c2s_req_join_chat_group, c2s_agree_join_chat_group,
}

module _ (e : Env) where
  -- However a request to join a group ends, the transaction that it begins is not closed before it is
  -- committed or rolled back.
  pub req_join_settles :
      (parsed : Bool) (req : JoinReq) (c : Client)
      → tx_state e (c2s_req_join_chat_group e parsed req (start c)).trace ≢ left_open
  unfolding c2s_req_join_chat_group
  req_join_settles parsed req c = ground arith

  module _ (req : AgreeReq) (state : Tx) where
    abbrev InState : Session → Type 0
    InState t = tx_state e t.trace ≡ state

    tell_members-InState :
        (members : Option (List ℕ)) (t : Session)
        → InState t
        → Within InState (tell_members e req members t)
    unfolding tell_members
    tell_members-InState none t h = ground arith
    tell_members-InState (some []) t h = h
    tell_members-InState (some (id ∷ ids)) t h = ground arith

    welcome-InState : (s : Session) → InState s → Within InState (welcome e req s)
    unfolding welcome
    welcome-InState s h =
        let queued = mq req.agree_req_id (mq_group (mq_agree_join req.agree_group_id)) ∷ s.trace in
        let asked = group_call (get_record_members req.agree_group_id) in
        ground (
          arith,
          tell_members-InState (e.set_ids queued asked) (record s { trace = asked ∷ queued }),
        )

  -- The same of the agreement to a request.
  pub agree_join_settles :
      (parsed : Bool) (req : AgreeReq) (c : Client)
      → tx_state e (c2s_agree_join_chat_group e parsed req (start c)).trace ≢ left_open
  unfolding c2s_agree_join_chat_group
  agree_join_settles parsed req c =
      let row : MemberRow = record {
        row_account_id = req.agree_req_id;
        row_chat_group_id = req.agree_group_id;
        row_nick_name = req.agree_nick_name;
      } in
      let asked =
        group_call (is_record_member req.agree_group_id c.account_id)
        ∷ group_call (select_group req.agree_group_id)
        ∷ [] in
      let marked = group_call (process_join_log req.agree_req_uid) ∷ asked in
      let written =
        tx_commit
        ∷ group_call (update_join_log req.agree_req_uid)
        ∷ group_call (insert_members (row ∷ []))
        ∷ group_call (select_join_log req.agree_req_uid)
        ∷ tx_begin
        ∷ asked in
      ground (
        arith,
        welcome-InState req idle (record { client = c; trace = marked }),
        welcome-InState req settled (record { client = c; trace = written }),
      )

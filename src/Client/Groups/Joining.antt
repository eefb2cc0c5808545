-- ===== src/Client/Groups/Joining.antt =====
-- msg-server/client/chatGroup.go: `C2SReqJoinChatGroup`, `C2SAgreeJoinChatGroup`, `C2SRefuseJoinChatGroup`
-- and `C2SChatGroupInfo`. A request that lacks its inner message, which the handlers dereference, is left
-- out.
pub mod Authority
pub mod Settling
pub mod Keeps
use instant_message.Prelude.{
  ℕ, String, Bool, true, false, not, ◌||◌, ◌==◌, Option, none, some, List, [], ◌∷◌, ◌++◌,
}
use instant_message.Client.{ChatGroup}
use instant_message.Client.GroupMessage.{
  JoinReq, AgreeReq, RefuseReq, Member, HashItem, MemberRow, exists_group, exists_account,
  select_group, insert_join_log, new_req_uid, is_record_member, process_join_log, refuse_join_log,
  member_type_panic, select_join_log, update_join_log, insert_members, get_record_members,
  get_all_members, unmarshal_req_join, req_join_group_id, is_group_member as already_member,
  query_group_manager_failed, mq_group_manager_failed, unmarshal_agree, agree_query_group_id_failed,
  agree_is_not_manager, agree_query_req_uid_failed, agree_insert_member_failed,
  agree_update_log_failed, agree_notice_requester_failed, agree_get_members_failed,
  unmarshal_refuse, refuse_error, refuse_update_log_failed, unmarshal_info, info_group_id_error,
  info_get_group_failed, info_get_member_failed, req_join_ack, agree_join_ack, chat_group_info,
  mq_req_join, mq_agree_join, mq_refuse, join_event,
}
use instant_message.Client.Session.{
  Env, Session, M, ◌>>=◌, ◌>>◌, pure, stop, when, gets, call, ask, scoped, run, send, mq, mq_group,
  error_code, group_error, group_call, get_brief_info, get_portrait, tx_begin, tx_commit,
  tx_rollback, tx_close,
}
use instant_message.Client.Groups.{
  group_reject, ask_group, answer, publish_group, for_each, queue_to, is_group_member,
  member_values,
}

abbrev or_empty : Option String → String
or_empty none = ""
or_empty (some t) = t

abbrev or_own : Option String → String → String
or_own none own = own
or_own (some t) own = t

module _ (e : Env) where
  -- The number of the request and the creator that it goes to, once the request is recorded. What
  -- fails rolls back; a commit that fails says nothing.
  record_request : JoinReq → Option ChatGroup → M (Option (ℕ × ℕ)) (Option (ℕ × ℕ))
  record_request req none = do
    call (send (error_code (group_error query_group_manager_failed) 0))
    stop none
  record_request req (some group) = do
    uid ← ask (λ t c. e.uid t) (group_call new_req_uid)
    me ← gets (λ c. c.account_id)
    logged ← ask e.ok (group_call (insert_join_log group.chat_group_id me uid req.req_message))
    when (not logged)
        do call (send (error_code (group_error query_group_manager_failed) 0)); stop none
    committed ← ask e.ok tx_commit
    when (not committed) (stop none)
    pure (some (group.creator, uid))

  tell_manager : JoinReq → (nick_name : String) → Option (ℕ × ℕ) → M (Unit {0}) (Unit {0})
  tell_manager req nick_name none = do call tx_rollback; call tx_close
  tell_manager req nick_name (some (creator, uid)) = do
    queued ← ask e.ok (mq creator (mq_group (mq_req_join req nick_name uid)))
    when (not queued)
        do call (send (error_code (group_error mq_group_manager_failed) 0)); call tx_close; stop tt
    answer (req_join_ack req nick_name)
    call tx_close

  pub c2s_req_join_chat_group : (parsed : Bool) → JoinReq → Session → Session
  unfolding record_request tell_manager
  c2s_req_join_chat_group parsed req = run do
    when (not parsed) (group_reject unmarshal_req_join)
    exists ← ask e.ok (group_call (exists_group req.join_group_id))
    when (not exists) (group_reject req_join_group_id)
    member ← is_group_member e req.join_group_id req.join_user_id
    when member (group_reject already_member)
    began ← ask e.ok tx_begin
    when (not began) (do call tx_close; stop tt)
    group ← ask e.chat_group (group_call (select_group req.join_group_id))
    recorded ← scoped (record_request req group)
    nick_name ← gets (λ c. c.nick_name)
    tell_manager req nick_name recorded

  admit_in_tx : AgreeReq → M Bool Bool
  admit_in_tx req = do
    found ← ask e.ok (group_call (select_join_log req.agree_req_uid))
    when (not found)
        do call (send (error_code (group_error agree_query_req_uid_failed) 0)); stop false
    let row : MemberRow = record {
      row_account_id = req.agree_req_id;
      row_chat_group_id = req.agree_group_id;
      row_nick_name = req.agree_nick_name;
    }
    inserted ← ask e.ok (group_call (insert_members (row ∷ [])))
    when (not inserted)
        do call (send (error_code (group_error agree_insert_member_failed) 0)); stop false
    updated ← ask e.ok (group_call (update_join_log req.agree_req_uid))
    when (not updated)
        do call (send (error_code (group_error agree_update_log_failed) 0)); stop false
    committed ← ask e.ok tx_commit
    when (not committed) (stop false)
    pure true

  -- Redis gives its members as bytes, of which the loop asserts that they are numbers: the first panics,
  -- which ends the handler, and what it deferred is done.
  tell_members : AgreeReq → Option (List ℕ) → M (Unit {0}) (Unit {0})
  tell_members req none = group_reject agree_get_members_failed
  tell_members req (some []) = pure tt
  tell_members req (some (id ∷ ids)) = do ask_group member_type_panic; stop tt

  -- What follows the admission, up to the end of the handler.
  welcome : AgreeReq → M (Unit {0}) (Unit {0})
  unfolding tell_members
  welcome req = do
    queued ← ask e.ok (mq req.agree_req_id (mq_group (mq_agree_join req.agree_group_id)))
    when (not queued) (group_reject agree_notice_requester_failed)
    members ← ask e.set_ids (group_call (get_record_members req.agree_group_id))
    tell_members req members
    answer (agree_join_ack req.agree_group_id req.agree_req_id)
    me ← gets (λ c. c.account_id)
    publish_group (join_event me req.agree_group_id)

  -- The query asks whether the manager is in the set; where it fails or says so, only the log is marked.
  admit : AgreeReq → (marked : Bool) → M (Unit {0}) (Unit {0})
  unfolding admit_in_tx welcome
  admit req true = do ask_group (process_join_log req.agree_req_uid); welcome req
  admit req false = do
    began ← ask e.ok tx_begin
    when (not began) (do call tx_close; stop tt)
    admitted ← scoped (admit_in_tx req)
    when (not admitted) (do call tx_rollback; call tx_close; stop tt)
    scoped (welcome req)
    call tx_close

  agree_as : AgreeReq → Option ChatGroup → M (Unit {0}) (Unit {0})
  unfolding admit
  agree_as req none = group_reject agree_query_group_id_failed
  agree_as req (some group) = do
    me ← gets (λ c. c.account_id)
    when (not (me == group.creator)) (group_reject agree_is_not_manager)
    marked ←
        ask (λ t c. not (e.ok t c) || (e.affected t c == 1))
          (group_call (is_record_member req.agree_group_id me))
    admit req marked

  pub c2s_agree_join_chat_group : (parsed : Bool) → AgreeReq → Session → Session
  unfolding agree_as
  c2s_agree_join_chat_group parsed req = run do
    when (not parsed) (group_reject unmarshal_agree)
    group ← ask e.chat_group (group_call (select_group req.agree_group_id))
    agree_as req group

  -- An error of the queue is ignored, and nothing is sent to the user.
  pub c2s_refuse_join_chat_group : (parsed : Bool) → RefuseReq → Session → Session
  c2s_refuse_join_chat_group parsed req = run do
    when (not parsed) (group_reject unmarshal_refuse)
    account ← ask e.ok (group_call (exists_account req.refuse_user_id))
    group ← ask e.ok (group_call (exists_group req.refuse_group_id))
    when (not account || not group) (group_reject refuse_error)
    updated ← ask e.ok (group_call (refuse_join_log req.refuse_req_uid))
    when (not updated) (group_reject refuse_update_log_failed)
    call (mq req.refuse_user_id (mq_group (mq_refuse req)))

  -- The loop of `C2SChatGroupInfo`; a value that does not unmarshal is left out.
  describe : List (Option Member) → List Member → M (Unit {0}) (List Member)
  describe [] shown = pure shown
  describe (none ∷ rest) shown = describe rest shown
  describe (some m ∷ rest) shown = do
    name ← ask e.text (get_brief_info m.user_id)
    portrait ← ask e.text (get_portrait m.user_id)
    let seen = record m {
      user_nick_name = or_own name m.user_nick_name;
      user_head_portrait_url = or_empty portrait;
    }
    describe rest (shown ++ seen ∷ [])

  list_members : ChatGroup → Option (List HashItem) → M (Unit {0}) (Unit {0})
  unfolding describe
  list_members group none = group_reject info_get_member_failed
  list_members group (some items) = do
    shown ← describe (member_values items) []
    answer (chat_group_info group shown)

  show_group : (id : ℕ) → Option ChatGroup → M (Unit {0}) (Unit {0})
  unfolding list_members
  show_group id none = group_reject info_get_group_failed
  show_group id (some group) = do
    items ← ask e.hash (group_call (get_all_members id))
    list_members group items

  pub c2s_chat_group_info : (parsed : Bool) → (group : ℕ) → Session → Session
  unfolding show_group
  c2s_chat_group_info parsed id = run do
    when (not parsed) (group_reject unmarshal_info)
    exists ← ask e.ok (group_call (exists_group id))
    when (not exists) (group_reject info_group_id_error)
    group ← ask e.chat_group (group_call (select_group id))
    show_group id group

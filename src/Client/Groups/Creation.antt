-- ===== src/Client/Groups/Creation.antt =====
-- msg-server/client/chatGroup.go: `C2SCreateChatGroup`. The dates and time stamps of the rows of mysql are
-- left out; crc32 is the environment's. A nil session of xorm does not occur.
pub mod Collecting
pub mod Invitees
pub mod Settling
pub mod Keeps
use instant_message.Prelude.{
  ℕ, ◌/◌, String, Bool, true, false, not, ◌||◌, ◌==◌, Option, none, some, List, [], ◌∷◌, ◌++◌,
}
use instant_message.Prelude.GoMap.{GoMap, insert, keys}
use instant_message.Client.{ChatGroup, is_friend}
use instant_message.Client.GroupMessage.{
  CreateReq, Member, MemberRow, lock_creation, unlock_creation, insert_chat_group, insert_members,
  insert_create_log, set_group_info, set_members, unmarshal_create, owner_marshal_failed,
  invitee_is_not_friend, ban_in_short_time, insert_chat_group_fail, insert_chat_group_member_fail,
  commit_error, create_chat_group_ack, mq_create_chat_group, join_event,
}
use instant_message.Client.Session.{
  Env, Session, M, ◌>>=◌, ◌>>◌, pure, stop, when, gets, call, ask, read_now, scoped, run, send,
  error_code, group_error, group_call, get_brief_info, tx_begin, tx_commit, tx_rollback, tx_close,
}
use instant_message.Client.Groups.{
  group_reject, ask_group, answer, publish_group, for_each, queue_to,
}

-- `mapInvitees` and `mapHashInvitees`.
pub record Picked : Type 0 where
  pub invitees : GoMap (Unit {0})
  pub hashed : GoMap Member

abbrev pub or_no_name : Option String → String
or_no_name none = ""
or_no_name (some name) = name

module _ (e : Env) where
  -- An invitee whose record does not serialize is left out.
  abbrev keep_marshalled : Bool → (id : ℕ) → Member → Picked → Picked
  keep_marshalled false id m p = p
  keep_marshalled true id m p = record {
    invitees = insert id tt p.invitees;
    hashed = insert id m p.hashed;
  }

  -- An invitee whose brief record redis does not give ends the handler without a word.
  pick_known : (id brief_id : ℕ) → Option String → Picked → M (Unit {0}) Picked
  pick_known id brief_id none p = stop tt
  pick_known id brief_id (some name) p =
      let m : Member = record {
        user_id = brief_id;
        user_nick_name = name;
        flag = 2;
        user_head_portrait_url = "";
      } in
      pure (keep_marshalled (e.marshal_member m) id m p)

  pick : (me id : ℕ) → Picked → M (Unit {0}) Picked
  unfolding pick_known
  pick me id p s = elim (id == 0 || id == me) [
    | true ↦ pure p s
    | false ↦
        (do
          friend ← gets (λ c. is_friend c id)
          when (not friend) (group_reject invitee_is_not_friend)
          brief_id ← (λ t. pure (e.brief_id t.trace (get_brief_info id)) t)
          name ← ask e.text (get_brief_info id)
          pick_known id brief_id name p)
          s
  ]

  collect : (me : ℕ) → List ℕ → Picked → M (Unit {0}) Picked
  unfolding pick
  collect me [] p = pure p
  collect me (id ∷ ids) p = pick me id p >>= λ q. collect me ids q

  pub member_rows : (group : ℕ) → List ℕ → List MemberRow → M (Unit {0}) (List MemberRow)
  member_rows group [] rows = pure rows
  member_rows group (id ∷ ids) rows = do
    name ← ask e.text (get_brief_info id)
    let row : MemberRow = record {
      row_account_id = id;
      row_chat_group_id = group;
      row_nick_name = or_no_name name;
    }
    member_rows group ids (rows ++ row ∷ [])

  -- Whether the transaction was committed; each failure is told to the user.
  create_in_tx : ChatGroup → List MemberRow → M Bool Bool
  create_in_tx group rows = do
    inserted ← ask e.ok (group_call (insert_chat_group group))
    when (not inserted)
        do call (send (error_code (group_error insert_chat_group_fail) 0)); stop false
    filled ← ask e.ok (group_call (insert_members rows))
    when (not filled)
        do call (send (error_code (group_error insert_chat_group_member_fail) 0)); stop false
    committed ← ask e.ok tx_commit
    when (not committed) do call (send (error_code (group_error commit_error) 0)); stop false
    pure true

  announce_group : (me : ℕ) → ChatGroup → Picked → M (Unit {0}) (Unit {0})
  announce_group me group picked = do
    ask_group (insert_create_log group.chat_group_id me)
    ask_group (set_group_info group)
    stored ← ask e.ok (group_call (set_members group.chat_group_id picked.hashed))
    when (not stored) (stop tt)
    for_each (keys picked.invitees)
        (queue_to (mq_create_chat_group group.chat_group_id group.group_name group.pic))
    publish_group (join_event me group.chat_group_id)
    answer (create_chat_group_ack group (keys picked.invitees))

  store_group : (me : ℕ) → ChatGroup → Picked → List MemberRow → M (Unit {0}) (Unit {0})
  unfolding create_in_tx announce_group
  store_group me group picked rows = do
    began ← ask e.ok tx_begin
    when (not began) (do call tx_close; stop tt)
    created ← scoped (create_in_tx group rows)
    when (not created) (do call tx_rollback; call tx_close; stop tt)
    scoped (announce_group me group picked)
    call tx_close

  -- What stands between the lock and its deferred release.
  pub create_locked : (me : ℕ) (nick_name : String) → CreateReq → Picked → M (Unit {0}) (Unit {0})
  unfolding member_rows store_group
  create_locked me nick_name req picked = do
    now ← read_now e
    let group : ChatGroup = record {
      chat_group_id = e.crc32_id (now / 1000000) me;
      creator = me;
      group_name = req.chat_group_name;
      pic = req.pic_chat_group;
    }
    let first : MemberRow = record {
      row_account_id = me;
      row_chat_group_id = group.chat_group_id;
      row_nick_name = nick_name;
    }
    rows ← member_rows group.chat_group_id (keys picked.invitees) (first ∷ [])
    store_group me group picked rows

  pub create_picked : (me : ℕ) (nick_name : String) → CreateReq → Picked → M (Unit {0}) (Unit {0})
  unfolding create_locked
  create_picked me nick_name req picked = do
    locked ← ask e.ok (group_call (lock_creation me))
    when (not locked) (group_reject ban_in_short_time)
    scoped (create_locked me nick_name req picked)
    ask_group (unlock_creation me)

  pub c2s_create_chat_group : (parsed : Bool) → CreateReq → Session → Session
  unfolding collect create_picked
  c2s_create_chat_group parsed req = run do
    when (not parsed) (group_reject unmarshal_create)
    me ← gets (λ c. c.account_id)
    nick_name ← gets (λ c. c.nick_name)
    let owner : Member = record {
      user_id = me;
      user_nick_name = nick_name;
      flag = 1;
      user_head_portrait_url = "";
    }
    when (not (e.marshal_member owner)) (group_reject owner_marshal_failed)
    picked ← collect me req.friend_ids (record { invitees = []; hashed = (me, owner) ∷ [] })
    create_picked me nick_name req picked

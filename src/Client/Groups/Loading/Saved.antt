-- ===== src/Client/Groups/Loading/Saved.antt =====
-- What a client loads of its groups, and what it saves of them (redisOpt.go, mysqlOpt.go).
use instant_message.Prelude.{
  ℕ, ◌≡◌, ◌≢◌, refl, Bool, true, false, ◌==◌, ◌&&◌, ◌||◌, Option, none, some, is_some, List, [],
  ◌∷◌, ◌++◌, arith, if◌then◌else◌,
}
use instant_message.Prelude.GoMap.{GoMap, lookup, insert, lookup-insert}
use instant_message.Client.{
  Client, ChatGroup, add_chat_group, get_chat_group_info, get_chat_group_last_msg_timestamp,
}
use instant_message.Client.GroupMessage.{update_group_timestamp}
use instant_message.Client.Session.{Call, Env, Session, start, group_call, tx_begin}
use instant_message.Client.Flows.{Yields}
use instant_message.Client.Deletion.Transaction.{tx_state, opened, settled, left_open}
use instant_message.Client.Deletion.Outcome.{committed}
use instant_message.Client.Groups.History.{c2s_chat_group_last_msg_time_stamp}
use instant_message.Client.Groups.Loading.{
  add_all, join_chat_group, load_chat_group_info, scan, loaded, save_each, save_in_tx,
  save_chat_group_last_msg_timestamp,
}

-- The time stamp of the group in the map that the loop built.
abbrev stamps_of : Option (List ℕ × GoMap ℕ) → ℕ → Option ℕ
stamps_of none id = none
stamps_of (some (ids, stamps)) id = lookup id stamps

-- Every group stands under its own id.
abbrev pub GroupsKeyed : GoMap ChatGroup → Type 0
GroupsKeyed [] = Unit
GroupsKeyed ((k, group) ∷ groups) = (k ≡ group.chat_group_id) × GroupsKeyed groups

insert-GroupsKeyed :
    (group : ChatGroup) (groups : GoMap ChatGroup)
    → GroupsKeyed groups
    → GroupsKeyed (insert group.chat_group_id group groups)
unfolding insert
insert-GroupsKeyed group [] h = (refl, tt)
insert-GroupsKeyed group ((k, g) ∷ groups) h = ground (arith, insert-GroupsKeyed group groups)

add_all-GroupsKeyed :
    (groups : List (Option ChatGroup)) (c : Client)
    → GroupsKeyed c.chat_groups
    → GroupsKeyed (add_all groups c).chat_groups
unfolding add_chat_group
add_all-GroupsKeyed [] c h = h
add_all-GroupsKeyed (none ∷ groups) c h = add_all-GroupsKeyed groups c h
add_all-GroupsKeyed (some group ∷ groups) c h =
    add_all-GroupsKeyed groups (add_chat_group group c) (insert-GroupsKeyed group c.chat_groups h)

-- The last time stamp that the rows give for the group, over an earlier one.
abbrev pub last_row : (id : ℕ) → List (Option (ℕ × ℕ)) → Option ℕ → Option ℕ
last_row id [] earlier = earlier
last_row id (none ∷ rows) earlier = last_row id rows earlier
last_row id (some (group, stamp) ∷ rows) earlier =
    last_row id rows (if group == id then some stamp else earlier)

abbrev pub all_scan : List (Option (ℕ × ℕ)) → Bool
all_scan [] = true
all_scan (none ∷ rows) = false
all_scan (some row ∷ rows) = all_scan rows

scan-last_row :
    (id : ℕ) (rows : List (Option (ℕ × ℕ))) (ids : List ℕ) (stamps : GoMap ℕ)
    → all_scan rows ≡ true
    → stamps_of (scan rows ids stamps) id ≡ last_row id rows (lookup id stamps)
unfolding scan
scan-last_row id [] ids stamps h = refl
scan-last_row id (none ∷ rows) ids stamps h = absurd (ground (arith, h))
scan-last_row id (some (group, stamp) ∷ rows) ids stamps h = ground (
  arith,
  scan-last_row id rows (ids ++ group ∷ []) (insert group stamp stamps) h,
  lookup-insert group id stamp stamps,
)

scan-all :
    (rows : List (Option (ℕ × ℕ))) (ids : List ℕ) (stamps : GoMap ℕ)
    → is_some (scan rows ids stamps) ≡ all_scan rows
unfolding scan
scan-all [] ids stamps = refl
scan-all (none ∷ rows) ids stamps = refl
scan-all (some (group, stamp) ∷ rows) ids stamps =
    scan-all rows (ids ++ group ∷ []) (insert group stamp stamps)

module _ (mget : List ℕ → List (Option ChatGroup)) (c : Client) where
  loaded-GroupsKeyed :
      (o : Option (List ℕ × GoMap ℕ))
      → GroupsKeyed c.chat_groups
      → GroupsKeyed (loaded o mget c).chat_groups
  loaded-GroupsKeyed none h = h
  loaded-GroupsKeyed (some (ids, stamps)) h = add_all-GroupsKeyed (mget ids) c h

  loaded-stamps :
      (id : ℕ) (o : Option (List ℕ × GoMap ℕ))
      → lookup id (loaded o mget c).chat_group_last_msg_timestamp
        ≡ (if is_some o then stamps_of o id else lookup id c.chat_group_last_msg_timestamp)
  loaded-stamps id none = refl
  loaded-stamps id (some (ids, stamps)) = refl

  -- Whatever redis gives of the groups, the loading keeps each group of the client under its own id. Where
  -- every row of mysql scans, the client then has, of each group, the last time stamp that the rows give
  -- for it; where one does not, it keeps those that it had.
  pub load_chat_group_info_lem :
      (rows : List (Option (ℕ × ℕ))) (id : ℕ)
      → GroupsKeyed c.chat_groups
      → let d = load_chat_group_info (some rows) mget c in
        GroupsKeyed d.chat_groups
        × (get_chat_group_last_msg_timestamp id d ≡ (
            if all_scan rows
            then last_row id rows none
            else get_chat_group_last_msg_timestamp id c))
  unfolding load_chat_group_info get_chat_group_last_msg_timestamp lookup
  load_chat_group_info_lem rows id h = (
    loaded-GroupsKeyed (scan rows [] []) h,
    ground (
      arith,
      loaded-stamps id (scan rows [] []),
      scan-all rows [] [],
      scan-last_row id rows [] [],
    ),
  )

-- Whether the time stamp of the group is written to mysql.
abbrev pub has_update : (group stamp : ℕ) → List Call → Bool
has_update group stamp [] = false
has_update group stamp (group_call (update_group_timestamp g s) ∷ cs) =
    (g == group && s == stamp) || has_update group stamp cs
has_update group stamp (c ∷ cs) = has_update group stamp cs

module _ (e : Env) (id v : ℕ) where
  abbrev Running : List Call → Type 0
  Running t = (tx_state e t ≡ opened) × (committed e t ≡ false)

  abbrev is_v : Option ℕ → Bool
  is_v none = false
  is_v (some x) = x == v

  abbrev Written : (wanted saved : Bool) → Session → Type 0
  Written wanted saved t =
      Running t.trace × (saved ≡ true) × (wanted ≡ true → has_update id v t.trace ≡ true)

  abbrev Stopped : Bool → Session → Type 0
  Stopped r t = (r ≡ false) × Running t.trace

  save_each-Written :
      (stamps : GoMap ℕ) (s : Session)
      → Running s.trace
      → Yields
          (Written (is_v (lookup id stamps) || has_update id v s.trace))
          Stopped
          (save_each e stamps s)
  unfolding save_each lookup
  save_each-Written [] s h = ground (arith, h)
  save_each-Written ((group, stamp) ∷ stamps) s h =
      let update = group_call (update_group_timestamp group stamp) in
      ground (arith, save_each-Written stamps (record s { trace = update ∷ s.trace }))

  abbrev Ended : (stamps : GoMap ℕ) (saved : Bool) → Session → Type 0
  Ended stamps saved t =
      ((saved ≡ true → tx_state e t.trace ≡ settled)
        × (saved ≡ false → tx_state e t.trace ≡ opened))
      × (committed e t.trace ≡ saved)
      × (saved ≡ true → is_v (lookup id stamps) ≡ true → has_update id v t.trace ≡ true)

  save_in_tx-Ended :
      (stamps : GoMap ℕ) (s : Session)
      → Running s.trace
      → Yields (Ended stamps) (Ended stamps) (save_in_tx e stamps s)
  unfolding save_in_tx
  save_in_tx-Ended stamps s h = ground (arith, save_each-Written stamps s h)

module _ (e : Env) (id v : ℕ) (c : Client) where
  save_timestamps_lem :
      let t = (save_chat_group_last_msg_timestamp e (start c)).trace in
      (tx_state e t ≢ left_open)
      × (committed e t ≡ true
          → is_v e id v (lookup id c.chat_group_last_msg_timestamp) ≡ true
          → has_update id v t ≡ true)
  unfolding save_chat_group_last_msg_timestamp
  save_timestamps_lem =
      let began = record (start c) { trace = tx_begin ∷ [] } in
      ground (arith, save_in_tx-Ended e id v c.chat_group_last_msg_timestamp began)

  -- Where the saving of the time stamps commits its transaction, the time stamp of every group of the client
  -- that has one is written to mysql; a transaction that it begins is never closed undecided.
  pub save_timestamps_writes_all :
      committed e (save_chat_group_last_msg_timestamp e (start c)).trace ≡ true
      → get_chat_group_last_msg_timestamp id c ≡ some v
      → let t = (save_chat_group_last_msg_timestamp e (start c)).trace in
        (has_update id v t ≡ true) × (tx_state e t ≢ left_open)
  unfolding get_chat_group_last_msg_timestamp
  save_timestamps_writes_all saved has =
      (save_timestamps_lem.1 saved (ground (arith, has)), save_timestamps_lem.0)

-- A group that a client joins while its user is logged in has no time stamp, and so keeps none that the
-- user reports.
pub joined_group_keeps_no_timestamp :
    (e : Env) (parsed : Bool) (reported : ℕ) (group : ChatGroup) (c : Client)
    → get_chat_group_last_msg_timestamp group.chat_group_id c ≡ none
    → let d = join_chat_group (some group) c in
      (get_chat_group_info group.chat_group_id d ≡ some group)
      × ((c2s_chat_group_last_msg_time_stamp e parsed group.chat_group_id reported (start d)).client
          ≡ d)
unfolding get_chat_group_info get_chat_group_last_msg_timestamp add_chat_group
    c2s_chat_group_last_msg_time_stamp
joined_group_keeps_no_timestamp e parsed reported group c h =
    ground (arith, lookup-insert group.chat_group_id group.chat_group_id group c.chat_groups)

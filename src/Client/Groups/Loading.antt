-- ===== src/Client/Groups/Loading.antt =====
-- msg-server/client/redisOpt.go and mysqlOpt.go: the groups and their time stamps that a client loads when
-- its user logs in, the group that it loads when the user joins one, and the saving of the time stamps.
pub mod Saved
use instant_message.Prelude.{ℕ, Bool, true, false, not, Option, none, some, List, [], ◌∷◌, ◌++◌}
use instant_message.Prelude.GoMap.{GoMap, insert}
use instant_message.Client.{Client, ChatGroup, add_chat_group}
use instant_message.Client.GroupMessage.{update_group_timestamp}
use instant_message.Client.Session.{
  Env, Session, M, ◌>>=◌, ◌>>◌, pure, stop, when, gets, call, ask, scoped, run, group_call,
  tx_begin, tx_commit, tx_rollback, tx_close,
}

-- A value that redis does not hold, or that does not unmarshal, is left out.
abbrev pub add_found : Option ChatGroup → Client → Client
add_found none c = c
add_found (some group) c = add_chat_group group c

-- `JoinChatGroup`, with what redis gives of the group.
abbrev pub join_chat_group : Option ChatGroup → Client → Client
join_chat_group = add_found

abbrev pub add_all : List (Option ChatGroup) → Client → Client
add_all [] c = c
add_all (group ∷ groups) c = add_all groups (add_found group c)

-- The loop over the rows; none where a row does not scan.
unfoldable pub scan : List (Option (ℕ × ℕ)) → (ids : List ℕ) → GoMap ℕ → Option (List ℕ × GoMap ℕ)
scan [] ids stamps = some (ids, stamps)
scan (none ∷ rows) ids stamps = none
scan (some (group, stamp) ∷ rows) ids stamps =
    scan rows (ids ++ group ∷ []) (insert group stamp stamps)

abbrev loaded : Option (List ℕ × GoMap ℕ) → (List ℕ → List (Option ChatGroup)) → Client → Client
loaded none mget c = c
loaded (some (ids, stamps)) mget c = record (add_all (mget ids) c) {
  chat_group_last_msg_timestamp = stamps;
}

-- The rows of chat_group_member as mysql gives them, and redis's MGET.
unfoldable pub load_chat_group_info :
    Option (List (Option (ℕ × ℕ))) → (List ℕ → List (Option ChatGroup)) → Client → Client
unfolding scan
load_chat_group_info none mget c = c
load_chat_group_info (some rows) mget c = loaded (scan rows [] []) mget c

module _ (e : Env) where
  save_each : GoMap ℕ → M Bool Bool
  save_each [] = pure true
  save_each ((group, stamp) ∷ stamps) = do
    updated ← ask e.ok (group_call (update_group_timestamp group stamp))
    when (not updated) (stop false)
    save_each stamps

  save_in_tx : GoMap ℕ → M Bool Bool
  unfolding save_each
  save_in_tx stamps = do
    saved ← save_each stamps
    committed ← ask e.ok tx_commit
    when (not committed) (stop false)
    pure saved

  unfoldable pub save_chat_group_last_msg_timestamp : Session → Session
  unfolding save_in_tx
  save_chat_group_last_msg_timestamp = run do
    began ← ask e.ok tx_begin
    when (not began) (do call tx_close; stop tt)
    stamps ← gets (λ c. c.chat_group_last_msg_timestamp)
    saved ← scoped (save_in_tx stamps)
    when (not saved) (call tx_rollback)
    call tx_close

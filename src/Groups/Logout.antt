-- ===== src/Groups/Logout.antt =====
-- What the logout of a client does to the groups (onlineChatGroupManager.go and clientManager.go).
use instant_message.Prelude.{
  ℕ, ◌≡◌, refl, true, false, Option, none, some, List, [], ◌∷◌, arith, ◌==◌, if◌then◌else◌,
}
use instant_message.Prelude.GoMap.{lookup, lookup-insert, has_key-remove, insert, remove}
use instant_message.Prelude.Members.{contains, contains-keys}
use instant_message.Online.{
  Conn, Table, get_client, remove_client, terminal_type_app, terminal_type_web,
}
use instant_message.Online.Contents.{get_client-remove_client}
use instant_message.Groups.{
  Local, Members, Command, remove_position, Groups, enter, is_new, login_loop, new_groups,
  local_chat_group_member_login, without, logout_loop, emptied_groups,
  local_chat_group_member_logout, on_client_logout, members_of,
}
use instant_message.Groups.Positions.{Redis, in_position}

module _ (a g : ℕ) where
  without-members :
      (k : ℕ) (m : Local) (o : Option Members)
      → lookup k m ≡ o
      → contains a (members_of (lookup g (without o a k m)))
        ≡ (if k == g then false else contains a (members_of (lookup g m)))
  unfolding contains
  without-members k m (some ms) e = ground (
    arith,
    lookup-insert k g (remove a ms) m,
    contains-keys a (remove a ms),
    has_key-remove a a ms,
  )
  without-members k m none e = ground arith

  logout_loop-members :
      (gs : List ℕ) (m : Local)
      → contains a (members_of (lookup g (logout_loop a gs m)))
        ≡ (if contains g gs then false else contains a (members_of (lookup g m)))
  unfolding logout_loop contains
  logout_loop-members [] m = refl
  logout_loop-members (k ∷ gs) m = ground (
    arith,
    logout_loop-members gs (without (lookup k m) a k m),
    without-members k m (lookup k m) refl,
  )

module _ (cli : Conn) (table : Table) (gs : List ℕ) (s : Groups) where
  -- When the app client of an account has logged out, the account stays in all its groups.
  pub on_client_logout-app :
      cli.terminal_type ≡ terminal_type_app
      → on_client_logout (remove_client cli table) gs cli.account_id s ≡ s
  unfolding on_client_logout
  on_client_logout-app h =
      ground (arith, get_client-remove_client cli cli.account_id terminal_type_app table)

  -- When the web client of an account has logged out while its app client is connected, the account is
  -- in none of its groups any more, though the app client is still found.
  pub on_client_logout-web :
      {app : Conn}
      → cli.terminal_type ≡ terminal_type_web
      → get_client cli.account_id terminal_type_app table ≡ some app
      → (g : ℕ) → contains g gs ≡ true
      → let left = remove_client cli table in
        let s' = on_client_logout left gs cli.account_id s in
        (contains cli.account_id (members_of (lookup g s'.local)) ≡ false)
        × (get_client cli.account_id terminal_type_app left ≡ some app)
  unfolding on_client_logout local_chat_group_member_logout
  on_client_logout-web w online g h = ground (
    arith,
    get_client-remove_client cli cli.account_id terminal_type_app table,
    logout_loop-members cli.account_id g gs s.local,
  )

-- A group whose only member here logs out and in again holds that member in memory, and redis, where it
-- executes every command, no longer lists this server for it.
pub logout_login_unlisted :
    (r : Redis)
    → (works : (cs : List Command) (c : Command) → r.executes cs c ≡ true) → (a g : ℕ) (s : Groups)
    → lookup g s.local ≡ some ((a, tt) ∷ [])
    → let s' =
        local_chat_group_member_login (g ∷ []) a (local_chat_group_member_logout (g ∷ []) a s) in
      (lookup g s'.local ≡ some ((a, tt) ∷ [])) × (in_position r g s'.commands ≡ false)
unfolding local_chat_group_member_login local_chat_group_member_logout login_loop new_groups enter
    is_new logout_loop emptied_groups remove insert
logout_login_unlisted r works a g s h = ground (
  arith,
  works s.commands (remove_position g),
  lookup-insert g g [] s.local,
  lookup-insert g g ((a, tt) ∷ []) (insert g [] s.local),
)

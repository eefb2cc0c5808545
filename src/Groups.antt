-- ===== src/Groups.antt =====
-- msg-server/onlineChatGroupManager/onlineChatGroupManager.go: which members of each chat group are
-- connected to this server, and in which groups redis lists this server. Each handler changes the map
-- under the lock and then gives redis its commands, whose results it ignores.
pub mod Positions
pub mod Logout
pub mod Chat
pub mod Tests
use instant_message.Prelude.{
  ℕ, Bool, true, false, ◌||◌, not, ◌&&◌, Option, none, some, List, [], ◌∷◌, ◌++◌, ◌==◌,
  if◌then◌else◌, is_some,
}
use instant_message.Prelude.GoMap.{GoMap, lookup, insert, remove, keys}
use instant_message.Online.{Conn, Table, get_client, terminal_type_app, terminal_type_web, is_empty}

-- The accounts of a group; the Go map holds nil values.
abbrev pub Members : Type 0
Members = GoMap (Unit {0})

-- `mmLocalOnlineGroupMember`.
abbrev pub Local : Type 0
Local = GoMap Members

-- The redis commands on the set of positions of a group, with this server's topic, and the call of
-- `cli.JoinChatGroup`, which loads the group into the client.
pub data Command : Type 0 where
  add_position remove_position expire : (group : ℕ) → Command
  client_join : (account group : ℕ) → Command

-- `commands` are those given so far, the latest first.
pub record Groups : Type 0 where
  pub local : Local
  pub commands : List Command

abbrev pub empty : Groups
empty = record { local = []; commands = [] }

abbrev pub entered : Option Members → (account group : ℕ) → Local → Local
entered (some members) account group m = insert group (insert account tt members) m
entered none account group m = insert group ((account, tt) ∷ []) m

-- The account is entered under the group; whether the group is new to the map is `is_new`.
unfoldable pub enter : (account group : ℕ) → Local → Local
enter account group m = entered (lookup group m) account group m

unfoldable pub is_new : (group : ℕ) → Local → Bool
is_new group m = not (is_some (lookup group m))

abbrev pub take_position : ℕ → List Command → List Command
take_position group cs = expire group ∷ add_position group ∷ cs

abbrev pub take_positions : List ℕ → List Command → List Command
take_positions [] cs = cs
take_positions (g ∷ gs) cs = take_positions gs (take_position g cs)

abbrev pub leave_positions : List ℕ → List Command → List Command
leave_positions [] cs = cs
leave_positions (g ∷ gs) cs = leave_positions gs (remove_position g ∷ cs)

-- `onJoinChatGroupEvent`.
unfoldable pub join_chat_group : (account group : ℕ) → Groups → Groups
unfolding enter is_new
join_chat_group account group s =
    let joined = client_join account group ∷ s.commands in
    record {
      local = enter account group s.local;
      commands = if is_new group s.local then take_position group joined else joined;
    }

-- `onUnChatGroupEvent`: the owner dissolves the group.
unfoldable pub un_chat_group : (group : ℕ) → Groups → Groups
un_chat_group group s = record {
  local = remove group s.local;
  commands = remove_position group ∷ s.commands;
}

abbrev pub cancelled : Option Members → (account group : ℕ) → Groups → Groups
cancelled (some members) account group s =
    let left = remove account members in
    if is_empty left
    then record { local = remove group s.local; commands = remove_position group ∷ s.commands }
    else record s { local = insert group left s.local }
cancelled none account group s = s

-- `onCancelChatGroupEvent`: a member leaves or is removed.
unfoldable pub cancel_chat_group : (account group : ℕ) → Groups → Groups
cancel_chat_group account group s = cancelled (lookup group s.local) account group s

-- The loop of `localChatGroupMemberLogin`, and the groups that it found new.
unfoldable pub login_loop : (account : ℕ) → List ℕ → Local → Local
unfolding enter
login_loop account [] m = m
login_loop account (g ∷ gs) m = login_loop account gs (enter account g m)

unfoldable pub new_groups : (account : ℕ) → List ℕ → Local → List ℕ
unfolding enter is_new
new_groups account [] m = []
new_groups account (g ∷ gs) m =
    let rest = new_groups account gs (enter account g m) in if is_new g m then g ∷ rest else rest

unfoldable pub local_chat_group_member_login : (group_ids : List ℕ) (account : ℕ) → Groups → Groups
local_chat_group_member_login group_ids account s = record {
  local = login_loop account group_ids s.local;
  commands = take_positions (new_groups account group_ids s.local) s.commands;
}

abbrev pub without : Option Members → (account group : ℕ) → Local → Local
without (some members) account group m = insert group (remove account members) m
without none account group m = m

abbrev pub emptied : Option Members → (account : ℕ) → Bool
emptied (some members) account = is_empty (remove account members)
emptied none account = false

-- The loop of `localChatGroupMemberLogout`. A group without members stays in the map.
unfoldable pub logout_loop : (account : ℕ) → List ℕ → Local → Local
logout_loop account [] m = m
logout_loop account (g ∷ gs) m = logout_loop account gs (without (lookup g m) account g m)

unfoldable pub emptied_groups : (account : ℕ) → List ℕ → Local → List ℕ
emptied_groups account [] m = []
emptied_groups account (g ∷ gs) m =
    let rest = emptied_groups account gs (without (lookup g m) account g m) in
    if emptied (lookup g m) account then g ∷ rest else rest

unfoldable pub local_chat_group_member_logout : (group_ids : List ℕ) (account : ℕ) → Groups → Groups
local_chat_group_member_logout group_ids account s = record {
  local = logout_loop account group_ids s.local;
  commands = leave_positions (emptied_groups account group_ids s.local) s.commands;
}

-- `onClientLogoutEvent`. The condition asks for the app terminal twice, as the source does.
unfoldable pub on_client_logout : Table → (group_ids : List ℕ) (account : ℕ) → Groups → Groups
on_client_logout table group_ids account s =
    if is_some (get_client account terminal_type_app table)
      || is_some (get_client account terminal_type_app table)
    then local_chat_group_member_logout group_ids account s
    else s

-- The ticker of `Init`: the positions are kept alive.
unfoldable pub refresh : List ℕ → List Command → List Command
refresh [] cs = cs
refresh (g ∷ gs) cs = refresh gs (expire g ∷ cs)

-- `SendToLocalChatGroup`: the clients that are sent the message, in order.
abbrev pub sent_to : Option Conn → Bool → List Conn
sent_to (some cli) true = cli ∷ []
sent_to _ _ = []

unfoldable pub send_to_members : Table → (sender : ℕ) → List ℕ → List Conn
send_to_members table sender [] = []
send_to_members table sender (member ∷ rest) =
    let other = not (member == sender) in
    sent_to (get_client member terminal_type_app table) other
    ++ (sent_to (get_client member terminal_type_web table) other
        ++ send_to_members table sender rest)

abbrev pub members_of : Option Members → List ℕ
members_of (some members) = keys members
members_of none = []

unfoldable pub send_to_local_chat_group : Table → (sender group : ℕ) → Groups → List Conn
unfolding send_to_members
send_to_local_chat_group table sender group s =
    send_to_members table sender (members_of (lookup group s.local))

-- `sendToRemoteChatGroup`: the topics of the group's positions but this server's own.
unfoldable pub remote_topics : (local_topic : ℕ) → List ℕ → List ℕ
remote_topics local_topic [] = []
remote_topics local_topic (t ∷ ts) =
    let rest = remote_topics local_topic ts in if t == local_topic then rest else t ∷ rest

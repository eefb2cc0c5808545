-- ===== src/Online.antt =====
-- msg-server/clientManager/clientManager.go: the connected clients of this server by account and
-- terminal, and msg-server/msgServerApp/recvMQMessage.go, which hands a queue frame to them. The mutex
-- makes each operation one step. A `*client.Client` is a `Conn`: its account, its terminal and the
-- serial number that tells it from earlier connections.
pub mod Contents
pub mod Routing
pub mod Tests
use instant_message.Prelude.{
  ℕ, suc, ◌^◌, Bool, true, false, ◌&&◌, Option, none, some, List, [], ◌∷◌, ◌++◌, length, drop, ltb,
  leb, ◌==◌, if◌then◌else◌,
}
use instant_message.Prelude.GoMap.{GoMap, lookup, insert, remove}
use instant_message.Wire.{Bytes, get_uint32, get_uint64}

pub record Conn : Type 0 where
  pub account_id : ℕ
  pub terminal_type : ℕ
  pub serial_num : ℕ

abbrev pub terminal_type_app : ℕ
terminal_type_app = 1

abbrev pub terminal_type_web : ℕ
terminal_type_web = 2

abbrev pub Terminals : Type 0
Terminals = GoMap Conn

-- `mapOnlineClient`.
abbrev pub Table : Type 0
Table = GoMap Terminals

abbrev pub store_at : Option Terminals → Conn → Table → Table
store_at (some terminals) cli m = insert cli.account_id (insert cli.terminal_type cli terminals) m
store_at none cli m = insert cli.account_id ((cli.terminal_type, cli) ∷ []) m

unfoldable pub store_client : Conn → Table → Table
store_client cli m = store_at (lookup cli.account_id m) cli m

abbrev pub found_in : Option Terminals → ℕ → Option Conn
found_in (some terminals) t = lookup t terminals
found_in none t = none

-- The client whose `done` signal the caller waits for, and which is told of the login elsewhere and
-- closed; without one, the signal is closed at once.
unfoldable pub kick_client : (account_id terminal_type : ℕ) → Table → Option Conn
kick_client account_id terminal_type m = found_in (lookup account_id m) terminal_type

abbrev pub is_empty {ℓ} : {A : Type ℓ} → List A → Bool
is_empty [] = true
is_empty (x ∷ xs) = false

abbrev pub drop_terminal : Option Terminals → Option Conn → Conn → Table → Table
drop_terminal (some terminals) (some _) cli m =
    let left = remove cli.terminal_type terminals in
    if is_empty left then remove cli.account_id m else insert cli.account_id left m
drop_terminal _ _ cli m = m

-- The map's part of `RemoveClient`; it then publishes the logout event and closes `done`.
unfoldable pub remove_client : Conn → Table → Table
remove_client cli m =
    let at = lookup cli.account_id m in drop_terminal at (found_in at cli.terminal_type) cli m

unfoldable pub get_client : (account_id terminal_type : ℕ) → Table → Option Conn
get_client account_id terminal_type m = found_in (lookup account_id m) terminal_type

unfoldable pub get_online_user_number : Table → ℕ
get_online_user_number m = length m

unfoldable pub get_other_terminal_client : Conn → Table → Option Conn
get_other_terminal_client cli m =
    if cli.terminal_type == terminal_type_app
    then get_client cli.account_id terminal_type_web m
    else get_client cli.account_id terminal_type_app m

-- What a queue frame makes the server do: hand bytes to a client, or a message to a local chat group.
pub data Delivery : Type 0 where
  handle_msg : Conn → Bytes → Delivery
  send_group_chat : Bytes → Delivery

abbrev pub handed : Option Conn → Bytes → List Delivery
handed (some cli) b = handle_msg cli b ∷ []
handed none b = []

-- An int64 is positive.
abbrev pub positive : ℕ → Bool
positive n = ltb 0 n && ltb n (2 ^ 63)

abbrev pub mq_group_chat : ℕ
mq_group_chat = 65802

-- `HandleMQMessage`; `send_group_chat` carries the body that `handleSendGroupChat` unmarshals.
unfoldable pub handle_mq_message : Table → Bytes → List Delivery
handle_mq_message m buf =
    let receiver_id = get_uint64 buf in
    let group_id = get_uint64 (drop 8 buf) in
    let body = drop 16 buf in
    if leb 24 (length buf)
    then if positive receiver_id
      then handed (get_client receiver_id terminal_type_app m) body
        ++ handed (get_client receiver_id terminal_type_web m) body
      else if positive group_id
      then if get_uint32 body == mq_group_chat then send_group_chat (drop 8 body) ∷ [] else []
      else []
    else []

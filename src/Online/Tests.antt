-- ===== src/Online/Tests.antt =====
-- The theorems on the table of clients at concrete clients.
use instant_message.Prelude.{◌≡◌, refl, arith, List, [], ◌∷◌, ◌++◌}
use instant_message.Prelude.GoMap.{lookup, insert}
use instant_message.Wire.{queue_frame, pack_byte_msg}
use instant_message.Online.{
  Conn, Table, store_client, get_client, handle_mq_message, handed, terminal_type_app,
  terminal_type_web,
}
use instant_message.Online.Contents.{Step, store, history-get_client}
use instant_message.Online.Routing.{handle_mq_message-user}

abbrev app : Conn
app = record { account_id = 7; terminal_type = 1; serial_num = 1 }

abbrev web : Conn
web = record { account_id = 7; terminal_type = 2; serial_num = 2 }

-- A login on the app, then one on the web.
abbrev logins : List Step
logins = store web ∷ store app ∷ []

abbrev table : Table
table = (7, (1, app) ∷ []) ∷ []

history-get_client_example : (web.account_id ≡ 7) × (web.terminal_type ≡ 2)
unfolding get_client store_client lookup insert
history-get_client_example = history-get_client logins 7 2 web refl

handle_mq_message-user_example :
    handle_mq_message table (queue_frame 7 0 5 (1 ∷ []))
    ≡ handed (get_client 7 terminal_type_app table) (pack_byte_msg 5 (1 ∷ []))
      ++ handed (get_client 7 terminal_type_web table) (pack_byte_msg 5 (1 ∷ []))
handle_mq_message-user_example =
    handle_mq_message-user table 7 5 (1 ∷ []) (omega arith) (omega arith)

-- ===== src/Groups/Tests.antt =====
-- The theorems on local chat groups at a concrete group.
use instant_message.Prelude.{true, false, refl, arith, List, [], ◌∷◌, inr}
use instant_message.Prelude.GoMap.{lookup, insert}
use instant_message.Prelude.Members.{contains}
use instant_message.Online.{Conn, get_client, store_client}
use instant_message.Online.Contents.{Step, store, history}
use instant_message.Groups.{Groups, send_to_local_chat_group}
use instant_message.Groups.Positions.{
  Redis, logs_in, joins, leaves, after, AgreesAt, after-AgreesAt,
}
use instant_message.Groups.Chat.{Among, send_to_local_chat_group-Among}

abbrev app : Conn
app = record { account_id = 7; terminal_type = 1; serial_num = 1 }

abbrev web : Conn
web = record { account_id = 7; terminal_type = 2; serial_num = 2 }

abbrev logins : List Step
logins = store web ∷ store app ∷ []

-- The group 3 with the members 7 and 8, and one with 7 alone.
abbrev both : Groups
both = record { local = (3, (7, tt) ∷ (8, tt) ∷ []) ∷ []; commands = [] }

abbrev alone : Groups
alone = record { local = (3, (7, tt) ∷ []) ∷ []; commands = [] }

abbrev sound : Redis
sound = record { executes = λ cs c. true; lapses = λ cs g. false }

after-AgreesAt_example : AgreesAt sound 3 (after (leaves 7 3 ∷ joins 8 3 ∷ logs_in (3 ∷ []) 7 ∷ []))
after-AgreesAt_example =
    after-AgreesAt sound (λ cs c. refl) (λ cs g. refl)
      (leaves 7 3 ∷ joins 8 3 ∷ logs_in (3 ∷ []) 7 ∷ []) 3

send_to_local_chat_group-Among_example :
    Among web (send_to_local_chat_group (history logins) 8 3 both)
unfolding get_client store_client lookup insert contains
send_to_local_chat_group-Among_example =
    send_to_local_chat_group-Among (history logins) 8 7 web 2 3 both (inr refl)
      (λ p. absurd (omega (arith, p))) refl refl

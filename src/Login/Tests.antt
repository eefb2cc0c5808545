-- ===== src/Login/Tests.antt =====
-- The theorems on logins, codes and the hand-over at concrete connections and answers.
use instant_message.Prelude.{ℕ, ◌≡◌, refl, true, false, none, some, [], ◌∷◌, arith}
use instant_message.Prelude.GoMap.{lookup}
use instant_message.Online.{Conn, get_client, kick_client}
use instant_message.Login.{
  waiting, running, Server, idle_server, take_lock, enter, Reach, Steps, start, later, lock, go_on,
}
use instant_message.Login.Handover.{found, one_client}
use instant_message.Login.Progress.{CanEnter, login_enters}
use instant_message.Login.Overlap.{overlap_hides_client}
use instant_message.Client.Session.{start as begin}
use instant_message.Client.Flows.{Yields}
use instant_message.Client.Tests.{calm, seven}
use instant_message.Login.Offline.{handle_offline_friend_data}
use instant_message.Login.Offline.Friends.{Joined, Never, offline_acceptances}
use instant_message.Login.Codes.{CodeEnv, forget_the_password}
use instant_message.Login.Codes.Checked.{PasswordChecked, answers, forget_password_checks}

-- Every connection logs in to the account 7 with the app.
abbrev seventh : ℕ → Conn
seventh n = record { account_id = 7; terminal_type = 1; serial_num = n }

abbrev first_waits : Server
first_waits = take_lock seventh 1 idle_server

first_waits-Reach : Reach seventh false first_waits
first_waits-Reach = later start (lock 1 refl refl)

first_free : first_waits.phase 1 ≡ waiting none
unfolding take_lock kick_client lookup
first_free = refl

abbrev first_in : Server
first_in = enter seventh 1 first_waits

first_in-Reach : Reach seventh false first_in
first_in-Reach = later first_waits-Reach (go_on 1 first_free refl)

one_client_example : (found seventh 1 first_in ≡ some (seventh 1)) × (◌≡◌ {A = ℕ} 1 1)
unfolding enter
one_client_example = one_client seventh (λ n. refl) 1 1 first_in-Reach refl refl refl refl

login_enters_example : CanEnter seventh 1 first_waits
login_enters_example = login_enters seventh 1 none (λ k. refl) first_waits-Reach first_free

overlap_hides_client_example :
    (t : Server) × Steps seventh true idle_server t
    × (t.phase 2 ≡ running)
    × (found seventh 2 t ≡ none)
unfolding get_client lookup
overlap_hides_client_example =
    overlap_hides_client seventh 1 2 idle_server refl refl (λ p. absurd (ground (arith, p))) refl
      refl refl

-- Redis holds the code 123456, and sets a new one where asked.
abbrev coded : CodeEnv
coded = record {
  ok = λ t c. true;
  exists = λ t c. some false;
  reply = λ t c. some 1;
  text = λ t c. some "123456";
  new_code = λ t. "123456";
}

forget_password_checks_example :
    let t = forget_the_password coded true 7 "123456" "secret" [] in
    PasswordChecked coded 7 "123456" "secret" t × (answers t ≡ 1)
forget_password_checks_example = forget_password_checks coded true 7 "123456" "secret"

offline_acceptances_example :
    Yields
      (Joined (λ id. true) 5 (some (some 5 ∷ [])) seven)
      Never
      (handle_offline_friend_data calm (some (some 5 ∷ [])) (begin seven))
offline_acceptances_example =
    offline_acceptances calm (λ id. true) (λ t id. refl) (some (some 5 ∷ [])) 5 (begin seven)

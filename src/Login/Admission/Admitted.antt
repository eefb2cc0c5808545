-- ===== src/Login/Admission/Admitted.antt =====
-- Who passes the checks of a login and of a registration (clientLogin.go), and what the others are told.
use Prim.Native.String.{String}
use text.Mathlib.Text.{◌==◌ as same_text}
use instant_message.Prelude.{
  ℕ, suc, ◌≡◌, ◌≢◌, Bool, true, false, not, Option, none, some, List, [], ◌∷◌, ◌==◌, arith,
  if◌then◌else◌,
}
use instant_message.Client.Message.{is_blank}
use instant_message.Login.Admission.{
  AccountRow, account_row, Login, LoginCall, answer_error, answer_elsewhere, close_socket,
  query_account, set_login_lock, set_register_lock, get_register_code, get_brief_record,
  insert_account, password_condition, LoginEnv, is_empty_login, is_disabled, account_of,
  admit_login, admit_registration,
}

-- How many messages the terminal is sent, whether the connection is closed, and whether an account is made.
abbrev pub told : List LoginCall → ℕ
told [] = 0
told (answer_error c ∷ t) = suc (told t)
told (answer_elsewhere ∷ t) = suc (told t)
told (c ∷ t) = told t

abbrev pub closed : List LoginCall → Bool
closed [] = false
closed (close_socket ∷ t) = true
closed (c ∷ t) = closed t

abbrev pub makes_account : List LoginCall → Bool
makes_account [] = false
makes_account (insert_account id password ∷ t) = true
makes_account (c ∷ t) = makes_account t

-- The row gives the account for what the login names, and the account is in service.
abbrev pub serves : Login → AccountRow → (account : ℕ) → Bool
serves login (account_row id status) account =
    if account_of login id == account then not (is_disabled status) else false
serves login _ account = false

module _ (e : LoginEnv) (parsed : Bool) (login : Login) (password : String) where
  -- A login that passes names an account that mysql gives for it, and for its password where that is not empty,
  -- and that is in service, and redis has set the key of that account; it is told nothing yet, and its connection is open.
  pub login_passes :
      {account : ℕ}
      → (admit_login e parsed login password []).0 ≡ some account
      → let t = (admit_login e parsed login password []).1 in
        (is_empty_login login ≡ false)
        × (serves login (e.account [] (query_account login (password_condition password))) account
            ≡ true)
        × (e.ok (query_account login (password_condition password) ∷ []) (set_login_lock account)
            ≡ true)
        × (told t ≡ 0)
        × (closed t ≡ false)
  unfolding admit_login
  login_passes h = ground (arith, h)

abbrev pub holds_text : Option String → String → Bool
holds_text none code = false
holds_text (some stored) code = same_text stored code

module _ (e : LoginEnv) (parsed : Bool) (id : ℕ) (password code : String) where
  -- An account is made only for an id other than 0 and a password that is not empty, where redis holds the
  -- code for the id and has no brief record of it, and after redis has set the key of the id; a registration that goes on
  -- has made it.
  pub registration_checks :
      makes_account (admit_registration e parsed id password code []).1 ≡ true
      → (id ≢ 0)
        × (is_blank password ≡ false)
        × (is_blank code ≡ false)
        × (holds_text (e.text [] (get_register_code id)) code ≡ true)
        × (e.text (get_register_code id ∷ []) (get_brief_record id) ≡ none)
        × (e.ok (get_brief_record id ∷ get_register_code id ∷ []) (set_register_lock id) ≡ true)
  unfolding admit_registration
  registration_checks h = ground (arith, h)

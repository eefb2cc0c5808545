-- ===== src/Login/Admission.antt =====
-- msg-server/msgServerApp/clientLogin.go: what `clientLogin`, `userNameLogin` and `registerAccount` check
-- before a connection becomes a client. Mysql and redis answer as the environment says, from the calls made
-- before.
pub mod Admitted
use Prim.Native.String.{String}
use text.Mathlib.Text.{◌==◌ as same_text}
use instant_message.Prelude.{
  ℕ, Bool, true, false, not, Option, none, some, List, [], ◌∷◌, ◌==◌, if◌then◌else◌,
}
use instant_message.Client.Message.{is_blank}

pub data LoginError : Type 0 where
  unmarshal_login login_id_is_zero login_wrong_password login_mysql_error : LoginError
  login_out_of_service : LoginError
  unmarshal_register register_id_is_zero register_password_is_empty : LoginError
  register_code_is_empty register_code_is_wrong register_id_is_used : LoginError
  register_mysql_error : LoginError

-- The answer to the query of an account: sql.ErrNoRows is `no_account`.
pub data AccountRow : Type 0 where
  no_account query_failed : AccountRow
  account_row : (account_id status : ℕ) → AccountRow

-- The account is named by its id, or by its user name.
pub data Login : Type 0 where
  by_id : (account_id : ℕ) → Login
  by_name : String → Login

pub data LoginCall : Type 0 where
  answer_error : LoginError → LoginCall
  answer_elsewhere close_socket : LoginCall
  query_account : Login → (password : Option String) → LoginCall
  set_login_lock set_register_lock drop_register_lock : (account_id : ℕ) → LoginCall
  get_register_code get_brief_record : (account_id : ℕ) → LoginCall
  insert_account : (account_id : ℕ) (password : String) → LoginCall

pub record LoginEnv : Type 0 where
  pub ok : List LoginCall → LoginCall → Bool
  pub text : List LoginCall → LoginCall → Option String
  pub account : List LoginCall → LoginCall → AccountRow

-- The account that goes on, if any, and the calls made, the latest first.
abbrev pub Outcome : Type 0
Outcome = Option ℕ × List LoginCall

abbrev shut : LoginError → List LoginCall → Outcome
shut error t = (none, close_socket ∷ answer_error error ∷ t)

abbrev pub is_empty_login : Login → Bool
is_empty_login (by_id n) = n == 0
is_empty_login (by_name name) = is_blank name

-- The password that the query asks for. xorm's `Get` leaves fields out that are empty, so that an empty
-- password is not asked for at all.
abbrev pub password_condition : String → Option String
password_condition password = if is_blank password then none else some password

-- By its id the account that goes on is the id of the message, by its name that of the row.
abbrev pub account_of : Login → (row_id : ℕ) → ℕ
account_of (by_id n) id = n
account_of (by_name name) id = id

abbrev pub is_disabled : ℕ → Bool
is_disabled status = status == 1

module _ (e : LoginEnv) where
  locked : (account_id : ℕ) → List LoginCall → (ok : Bool) → Outcome
  locked id t true = (some id, t)
  locked id t false = (none, close_socket ∷ answer_elsewhere ∷ t)

  -- An account out of service is told so, and its connection is left open.
  with_row : Login → List LoginCall → AccountRow → Outcome
  unfolding locked
  with_row login t no_account = shut login_wrong_password t
  with_row login t query_failed = shut login_mysql_error t
  with_row login t (account_row row_id status) =
      let id = account_of login row_id in
      if is_disabled status
      then (none, answer_error login_out_of_service ∷ t)
      else locked id (set_login_lock id ∷ t) (e.ok t (set_login_lock id))

  -- `clientLogin` and `userNameLogin` up to the kick.
  unfoldable pub admit_login :
      (parsed : Bool) → Login → (password : String) → List LoginCall → Outcome
  unfolding with_row
  admit_login parsed login password t =
      if not parsed
      then (none, answer_error unmarshal_login ∷ t)
      else if is_empty_login login
      then shut login_id_is_zero t
      else let query = query_account login (password_condition password) in
        with_row login (query ∷ t) (e.account t query)

  created : (account_id : ℕ) → List LoginCall → (ok : Bool) → Outcome
  created id t true = (some id, t)
  created id t false =
      (none, drop_register_lock id ∷ close_socket ∷ answer_error register_mysql_error ∷ t)

  -- Setex sets the key over an older one, so that it keeps no other registration out; an error of redis
  -- closes the connection without a word.
  register_locked : (account_id : ℕ) (password : String) → List LoginCall → (ok : Bool) → Outcome
  unfolding created
  register_locked id password t true =
      created id (insert_account id password ∷ t) (e.ok t (insert_account id password))
  register_locked id password t false = (none, close_socket ∷ t)

  -- Where redis has a brief record the account is in use; the connection is left open.
  unused : (account_id : ℕ) (password : String) → List LoginCall → Option String → Outcome
  unfolding register_locked
  unused id password t (some brief) = (none, answer_error register_id_is_used ∷ t)
  unused id password t none =
      register_locked id password (set_register_lock id ∷ t) (e.ok t (set_register_lock id))

  code_compared :
      (account_id : ℕ) (password code : String) → List LoginCall → Option String → Outcome
  unfolding unused
  code_compared id password code t none = shut register_code_is_wrong t
  code_compared id password code t (some stored) =
      if same_text stored code
      then unused id password (get_brief_record id ∷ t) (e.text t (get_brief_record id))
      else shut register_code_is_wrong t

  -- `registerAccount` up to `NewClient`; the lock is dropped at the end of the handler.
  pub admit_registration :
      (parsed : Bool) → (account_id : ℕ) (password code : String) → List LoginCall → Outcome
  unfolding code_compared
  admit_registration parsed id password code t =
      if not parsed
      then (none, answer_error unmarshal_register ∷ t)
      else if id == 0
      then shut register_id_is_zero t
      else if is_blank password
      then shut register_password_is_empty t
      else if is_blank code
      then shut register_code_is_empty t
      else code_compared id password code (get_register_code id ∷ t)
          (e.text t (get_register_code id))

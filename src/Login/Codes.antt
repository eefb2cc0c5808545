-- ===== src/Login/Codes.antt =====
-- msg-server/msgServerApp/clientLogin.go: `getVerificationCode` and `forgetPassword`. Redis, mysql and the
-- sms service answer as the environment says, from the calls made before; a code is a text.
pub mod Checked
use Prim.Native.String.{String}
use text.Mathlib.Text.{◌==◌ as same_text}
use instant_message.Prelude.{
  ℕ, Bool, true, false, not, Option, none, some, List, [], ◌∷◌, ◌==◌, if◌then◌else◌,
}
use instant_message.Client.Message.{is_blank}

-- msg_struct.VerificationCodeAction; `other` is any further value.
pub data Purpose : Type 0 where
  register forget_password other : Purpose

pub data CodeError : Type 0 where
  unmarshal_get_code get_code_internal account_exists account_is_missing : CodeError
  register_not_timeout forget_not_timeout action_error : CodeError
  unmarshal_forget phone_is_empty code_is_empty password_is_empty forget_internal : CodeError
  code_differs : CodeError

-- SETNX, SETEX, GET and DEL of the code of a phone number, and the rest.
pub data CodeCall : Type 0 where
  answer_error : CodeError → CodeCall
  answer_code answer_password : CodeCall
  account_exist : (phone : ℕ) → CodeCall
  set_absent set_expiring : Purpose → (phone : ℕ) → String → CodeCall
  send_sms : (phone : ℕ) → String → CodeCall
  get_code delete_code : Purpose → (phone : ℕ) → CodeCall
  update_password : (phone : ℕ) → String → CodeCall

pub record CodeEnv : Type 0 where
  pub ok : List CodeCall → CodeCall → Bool
  pub exists : List CodeCall → CodeCall → Option Bool
  pub reply : List CodeCall → CodeCall → Option ℕ
  pub text : List CodeCall → CodeCall → Option String
  pub new_code : List CodeCall → String

-- Of the account, a registration wants none and a forgotten password one.
abbrev pub wrong_account : Purpose → (found : Bool) → Option CodeError
wrong_account register true = some account_exists
wrong_account forget_password false = some account_is_missing
wrong_account _ _ = none

abbrev pub not_timeout : Purpose → CodeError
not_timeout register = register_not_timeout
not_timeout _ = forget_not_timeout

module _ (e : CodeEnv) (purpose : Purpose) (phone : ℕ) where
  sent : List CodeCall → (ok : Bool) → List CodeCall
  sent t true = answer_code ∷ t
  sent t false = answer_error get_code_internal ∷ t

  expiring : String → List CodeCall → (ok : Bool) → List CodeCall
  unfolding sent
  expiring code t true = sent (send_sms phone code ∷ t) (e.ok t (send_sms phone code))
  expiring code t false = answer_error get_code_internal ∷ t

  -- The reply of SETNX: 0 where there is a code already.
  absent : String → List CodeCall → Option ℕ → List CodeCall
  unfolding expiring
  absent code t none = answer_error get_code_internal ∷ t
  absent code t (some n) =
      let call = set_expiring purpose phone code in
      if n == 0
      then answer_error (not_timeout purpose) ∷ t
      else expiring code (call ∷ t) (e.ok t call)

  fit : List CodeCall → Option CodeError → List CodeCall
  unfolding absent
  fit t (some code) = answer_error code ∷ t
  fit t none =
      let call = set_absent purpose phone (e.new_code t) in
      absent (e.new_code t) (call ∷ t) (e.reply t call)

  known : List CodeCall → Option Bool → List CodeCall
  unfolding fit
  known t none = answer_error get_code_internal ∷ t
  known t (some found) = fit t (wrong_account purpose found)

abbrev pub has_purpose : Purpose → Bool
has_purpose other = false
has_purpose _ = true

module _ (e : CodeEnv) where
  -- The calls made, the latest first, above those made before.
  pub get_verification_code :
      (parsed : Bool) → Purpose → (phone : ℕ) → List CodeCall → List CodeCall
  unfolding known
  get_verification_code parsed purpose phone t =
      if not parsed
      then answer_error unmarshal_get_code ∷ t
      else if has_purpose purpose
      then known e purpose phone (account_exist phone ∷ t) (e.exists t (account_exist phone))
      else answer_error action_error ∷ t

  updated : List CodeCall → (ok : Bool) → List CodeCall
  updated t true = answer_password ∷ t
  updated t false = answer_error forget_internal ∷ t

  compared : (phone : ℕ) (code password : String) → List CodeCall → Option String → List CodeCall
  unfolding updated
  compared phone code password t none = answer_error forget_internal ∷ t
  compared phone code password t (some stored) =
      let deleted = delete_code forget_password phone ∷ t in
      let call = update_password phone password in
      if same_text stored code
      then updated (call ∷ deleted) (e.ok deleted call)
      else answer_error code_differs ∷ t

  pub forget_the_password :
      (parsed : Bool) → (phone : ℕ) (code password : String) → List CodeCall → List CodeCall
  unfolding compared
  forget_the_password parsed phone code password t =
      if not parsed
      then answer_error unmarshal_forget ∷ t
      else if phone == 0
      then answer_error phone_is_empty ∷ t
      else if is_blank code
      then answer_error code_is_empty ∷ t
      else if is_blank password
      then answer_error password_is_empty ∷ t
      else compared phone code password (get_code forget_password phone ∷ t)
          (e.text t (get_code forget_password phone))

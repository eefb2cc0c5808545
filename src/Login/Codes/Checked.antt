-- ===== src/Login/Codes/Checked.antt =====
-- What a verification code is good for (clientLogin.go).
use Prim.Native.String.{String}
use text.Mathlib.Text.{◌==◌ as same_text}
use instant_message.Prelude.{
  ℕ, suc, ◌≡◌, refl, Bool, true, false, Option, none, some, List, [], ◌∷◌, arith,
}
use instant_message.Client.Message.{is_blank}
use instant_message.Login.Codes.{
  Purpose, forget_password, CodeError, CodeCall, answer_error, answer_code, answer_password,
  set_expiring, set_absent, send_sms, get_code, update_password, account_exist, CodeEnv,
  wrong_account, expiring, absent, fit, known, get_verification_code, forget_the_password,
}

-- How many answers the terminal is sent.
abbrev pub answers : List CodeCall → ℕ
answers [] = 0
answers (answer_error c ∷ t) = suc (answers t)
answers (answer_code ∷ t) = suc (answers t)
answers (answer_password ∷ t) = suc (answers t)
answers (c ∷ t) = answers t

abbrev pub holds_code : Option String → String → Bool
holds_code none code = false
holds_code (some stored) code = same_text stored code

-- A password that is written is the one asked for, of the phone number asked for, and the code is the one
-- that redis holds for it.
abbrev pub PasswordChecked : CodeEnv → (phone : ℕ) (code password : String) → List CodeCall → Type 0
PasswordChecked e phone code password [] = Unit
PasswordChecked e phone code password (update_password p w ∷ t) =
    (p ≡ phone)
    × (w ≡ password)
    × (is_blank code ≡ false)
    × (is_blank password ≡ false)
    × (holds_code (e.text [] (get_code forget_password phone)) code ≡ true)
    × PasswordChecked e phone code password t
PasswordChecked e phone code password (c ∷ t) = PasswordChecked e phone code password t

-- The last call stores the code, for a limited time and without an error.
abbrev pub IsStored : CodeEnv → Purpose → (phone : ℕ) → String → List CodeCall → Type 0
IsStored e purpose phone code (set_expiring q p c ∷ t) =
    (q ≡ purpose) × (p ≡ phone) × (c ≡ code) × (e.ok t (set_expiring q p c) ≡ true)
IsStored e purpose phone code _ = ⊥

-- A code that is sent has just been stored, under the phone number that it is sent to.
abbrev pub SentExpiring : CodeEnv → Purpose → List CodeCall → Type 0
SentExpiring e purpose [] = Unit
SentExpiring e purpose (send_sms p c ∷ t) = IsStored e purpose p c t × SentExpiring e purpose t
SentExpiring e purpose (c ∷ t) = SentExpiring e purpose t

module _ (e : CodeEnv) (purpose : Purpose) (phone : ℕ) where
  abbrev Answered : List CodeCall → Type 0
  Answered t = SentExpiring e purpose t × (answers t ≡ 1)

  abbrev Open : List CodeCall → Type 0
  Open t = SentExpiring e purpose t × (answers t ≡ 0)

  expiring-Answered :
      (code : String) (t : List CodeCall) (b : Bool)
      → e.ok t (set_expiring purpose phone code) ≡ b
      → Open t
      → Answered (expiring e purpose phone code (set_expiring purpose phone code ∷ t) b)
  unfolding expiring
  expiring-Answered code t true p h = ground (arith, p, h)
  expiring-Answered code t false p h = ground (arith, h)

  absent-Answered :
      (code : String) (t : List CodeCall) (reply : Option ℕ)
      → Open t
      → Answered (absent e purpose phone code t reply)
  unfolding absent
  absent-Answered code t none h = ground (arith, h)
  absent-Answered code t (some n) h =
      ground (arith, expiring-Answered code t (e.ok t (set_expiring purpose phone code)) refl h, h)

  fit-Answered :
      (t : List CodeCall) (error : Option CodeError)
      → Open t
      → Answered (fit e purpose phone t error)
  unfolding fit
  fit-Answered t (some code) h = ground (arith, h)
  fit-Answered t none h =
      let call = set_absent purpose phone (e.new_code t) in
      absent-Answered (e.new_code t) (call ∷ t) (e.reply t call) h

  known-Answered :
      (t : List CodeCall) (found : Option Bool) → Open t → Answered (known e purpose phone t found)
  unfolding known
  known-Answered t none h = ground (arith, h)
  known-Answered t (some found) h = fit-Answered t (wrong_account purpose found) h

module _ (e : CodeEnv) (parsed : Bool) (phone : ℕ) where
  -- A forgotten password is changed only for a code that redis holds for the phone number, and neither the
  -- code nor the new password is empty; every request is answered exactly once.
  pub forget_password_checks :
      (code password : String)
      → let t = forget_the_password e parsed phone code password [] in
        PasswordChecked e phone code password t × (answers t ≡ 1)
  unfolding forget_the_password
  forget_password_checks code password = ground arith

  -- A verification code is sent only once redis holds it for a limited time; every request for one is
  -- answered exactly once.
  pub code_sent_expires :
      (purpose : Purpose)
      → let t = get_verification_code e parsed purpose phone [] in
        SentExpiring e purpose t × (answers t ≡ 1)
  unfolding get_verification_code
  code_sent_expires purpose =
      let asked = account_exist phone in
      ground (arith, known-Answered e purpose phone (asked ∷ []) (e.exists [] asked) (tt, refl))

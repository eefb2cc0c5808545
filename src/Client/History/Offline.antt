-- ===== src/Client/History/Offline.antt =====
-- What `C2SGetOfflinePrivateChatMsg` and `C2SLastMsgTimestamp` (privateChat.go) answer and keep.
use instant_message.Prelude.{
  ℕ, ◌+◌, ◌≡◌, ◌≢◌, refl, Bool, true, false, ◌⊎◌, Option, none, some, List, [], ◌∷◌, arith,
  signed_ltb, not, ◌&&◌, ◌==◌, if◌then◌else◌, ap, inl, inr, ◌↔◌,
}
use mathlib.Core.List.{Memᴰ}
use mathlib.Core.List.Memᴰ.{head, tail, not-nil, cases_cons}
use instant_message.Client.{Client, set_last_msg_timestamp}
use instant_message.Client.Message.{ChatMessage}
use instant_message.Client.Session.{Env, start}
use instant_message.Client.History.{c2s_last_msg_timestamp, undelivered}

module _ (e : Env) (long_enough parsed : Bool) (reported : ℕ) (c : Client) where
  -- A reported time stamp is kept only where it is later than the one kept before and earlier than
  -- ten seconds from now, all read as signed numbers; else the client is left as it was.
  pub last_msg_timestamp_bounds :
      let d = (c2s_last_msg_timestamp e long_enough parsed reported (start c)).client in
      (d ≡ c)
      ⊎ ((d ≡ set_last_msg_timestamp reported c)
          × (signed_ltb c.last_msg_timestamp reported ≡ true)
          × (signed_ltb reported (e.now [] + 10000000) ≡ true))
  unfolding c2s_last_msg_timestamp
  last_msg_timestamp_bounds = ground arith

-- The message is for `me`, and is not the one at `last`.
abbrev pub IsUndelivered : (me last : ℕ) → ChatMessage → Type 0
IsUndelivered me last m = (m.receiver_id ≡ me) × (m.srv_time_stamp ≢ last)

picked :
    {A : Type 0} (b : Bool) (m x : A) (rest : List A)
    → Memᴰ m (if b then x ∷ rest else rest)
    → ((m ≡ x) × (b ≡ true)) ⊎ Memᴰ m rest
picked true m x rest h = elim (cases_cons h) [ inl p ↦ inl (p, refl) | inr r ↦ inr r ]
picked false m x rest h = inr h

put_back :
    {A : Type 0} (b : Bool) (m x : A) (rest : List A)
    → ((m ≡ x) × (b ≡ true)) ⊎ Memᴰ m rest
    → Memᴰ m (if b then x ∷ rest else rest)
put_back true m x rest (inl (p, q)) = head p
put_back true m x rest (inr r) = tail r
put_back false m x rest (inl (p, q)) = absurd (ground arith)
put_back false m x rest (inr r) = r

abbrev wanted : (me last : ℕ) → ChatMessage → Bool
wanted me last m = not (m.srv_time_stamp == last) && (m.receiver_id == me)

wanted-IsUndelivered :
    (me last : ℕ) (m x : ChatMessage) → m ≡ x → wanted me last x ≡ true → IsUndelivered me last m
wanted-IsUndelivered me last m x p w = ground arith

IsUndelivered-wanted :
    (me last : ℕ) (m x : ChatMessage)
    → some m ≡ some x
    → IsUndelivered me last m
    → (m ≡ x) × (wanted me last x ≡ true)
IsUndelivered-wanted me last m x p u = ground arith

undelivered_sound :
    (me last : ℕ) (ms : List (Option ChatMessage)) (m : ChatMessage)
    → Memᴰ m (undelivered me last ms)
    → IsUndelivered me last m × Memᴰ (some m) ms
unfolding undelivered
undelivered_sound me last [] m h = absurd (not-nil h)
undelivered_sound me last (none ∷ ms) m h =
    let (u, i) = undelivered_sound me last ms m h in (u, tail i)
undelivered_sound me last (some x ∷ ms) m h =
    elim (picked (wanted me last x) m x (undelivered me last ms) h) [
      | inl (p, w) ↦ (wanted-IsUndelivered me last m x p w, head (ap some p))
      | inr r ↦ let (u, i) = undelivered_sound me last ms m r in (u, tail i)
    ]

undelivered_complete :
    (me last : ℕ) (ms : List (Option ChatMessage)) (m : ChatMessage)
    → IsUndelivered me last m
    → Memᴰ (some m) ms
    → Memᴰ m (undelivered me last ms)
unfolding undelivered
undelivered_complete me last [] m u h = absurd (not-nil h)
undelivered_complete me last (none ∷ ms) m u h = elim (cases_cons h) [
  | inl p ↦ absurd (ground arith)
  | inr r ↦ undelivered_complete me last ms m u r
]
undelivered_complete me last (some x ∷ ms) m u h =
    put_back (wanted me last x) m x (undelivered me last ms) (elim (cases_cons h) [
      | inl p ↦ inl (IsUndelivered-wanted me last m x p u)
      | inr r ↦ inr (undelivered_complete me last ms m u r)
    ])

-- The offline messages that the user is sent, of those read from redis, are the ones to the user whose
-- time stamp is not the one last reported, no more and no fewer.
pub undelivered-Mem :
    (me last : ℕ) (ms : List (Option ChatMessage)) (m : ChatMessage)
    → Memᴰ m (undelivered me last ms) ↔ (IsUndelivered me last m × Memᴰ (some m) ms)
undelivered-Mem me last ms m =
    (undelivered_sound me last ms m, λ h. undelivered_complete me last ms m h.0 h.1)

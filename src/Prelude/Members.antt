-- ===== src/Prelude/Members.antt =====
-- Membership of a number in a list, as a Boolean.
use Prim.Native.Nat.{ℕ}
use mathlib.Core.Path.{◌≡◌, refl}
use mathlib.Core.Bool.{Bool, true, false, ◌||◌}
use mathlib.Core.List.{List, [], ◌∷◌, ◌++◌}
use native.Mathlib.Omega.{arith}
use instant_message.Prelude.Tests.{◌==◌, if◌then◌else◌}
use instant_message.Prelude.GoMap.{GoMap, lookup, has_key, keys}

unfoldable pub contains : ℕ → List ℕ → Bool
contains k [] = false
contains k (j ∷ js) = if j == k then true else contains k js

pub contains-append :
    (k : ℕ) (xs ys : List ℕ) → contains k (xs ++ ys) ≡ (contains k xs || contains k ys)
unfolding contains
contains-append k [] ys = refl
contains-append k (x ∷ xs) ys = ground (arith, contains-append k xs ys)

pub contains-keys {ℓ} : {V : Type ℓ} (k : ℕ) (m : GoMap V) → contains k (keys m) ≡ has_key k m
unfolding contains lookup
contains-keys k [] = refl
contains-keys k ((j, v) ∷ m) = ground (arith, contains-keys k m)

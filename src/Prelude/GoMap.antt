-- ===== src/Prelude/GoMap.antt =====
-- A Go map[int64]V as an association list: a key is the bit pattern of the int64, a write replaces
-- the first binding or adds one at the end, and a range loop goes through the list.
use Prim.Native.Nat.{ℕ}
use mathlib.Core.Path.{◌≡◌, refl}
use mathlib.Core.Bool.{Bool, true, false}
use mathlib.Core.Option.{Option, none, some}
use mathlib.Core.List.{List, [], ◌∷◌}
use native.Mathlib.Omega.{arith}
use instant_message.Prelude.Tests.{◌==◌, if◌then◌else◌, is_some}

abbrev pub GoMap {ℓ} : Type ℓ → Type ℓ
GoMap V = List (ℕ × V)

module _ {ℓ} {V : Type ℓ} where
  unfoldable pub lookup : (key : ℕ) → GoMap V → Option V
  lookup key [] = none
  lookup key ((other, held) ∷ rest) = if other == key then some held else lookup key rest

  unfoldable pub insert : (key : ℕ) → V → GoMap V → GoMap V
  insert key value [] = (key, value) ∷ []
  insert key value ((other, held) ∷ rest) =
      if other == key then (key, value) ∷ rest else (other, held) ∷ insert key value rest

  unfoldable pub remove : (key : ℕ) → GoMap V → GoMap V
  remove key [] = []
  remove key ((other, held) ∷ rest) =
      if other == key then remove key rest else (other, held) ∷ remove key rest

  abbrev pub has_key : ℕ → GoMap V → Bool
  has_key k m = is_some (lookup k m)

  abbrev pub keys : GoMap V → List ℕ
  keys [] = []
  keys ((k, v) ∷ m) = k ∷ keys m

  module _ (written sought : ℕ) where
    pub lookup-insert :
        (value : V) (m : GoMap V)
        → lookup sought (insert written value m)
          ≡ (if written == sought then some value else lookup sought m)
    unfolding lookup insert
    lookup-insert value [] = refl
    lookup-insert value ((other, held) ∷ rest) = ground (arith, lookup-insert value rest)

    pub lookup-remove :
        (m : GoMap V)
        → lookup sought (remove written m) ≡ (if written == sought then none else lookup sought m)
    unfolding lookup remove
    lookup-remove [] = ground arith
    lookup-remove ((other, held) ∷ rest) = ground (arith, lookup-remove rest)

    pub has_key-insert :
        (value : V) (m : GoMap V)
        → has_key sought (insert written value m)
          ≡ (if written == sought then true else has_key sought m)
    has_key-insert value m = ground (arith, lookup-insert value m)

    pub has_key-remove :
        (m : GoMap V)
        → has_key sought (remove written m)
          ≡ (if written == sought then false else has_key sought m)
    has_key-remove m = ground (arith, lookup-remove m)

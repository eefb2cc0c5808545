-- ===== src/Snowflake/Bits.antt =====
-- The bit operations of snowflake.go in arithmetic: a mask is a remainder, and the bitwise or of a
-- shifted number and one that fits below it is their sum.
use Prim.Native.Nat.{digits, min, max, bit_and, bit_or, bit_and-bitwise, bit_or-bitwise}
use mathlib.Core.Path.{ap₂}
use native.Mathlib.Nat.{pow-suc, mod-lt, div-add-mod, add-mul-mod_self_left, mod-eq_of_lt}
use instant_message.Prelude.{
  ℕ, zero, suc, ◌+◌, ◌-◌, ◌*◌, ◌/◌, ◌%◌, ◌^◌, ◌≤◌, ◌<◌, ◌≡◌, refl, sym, ap, ◌∙◌, arith,
}

-- A digitwise operation, from its value where the left side has run out and its value on one digit.
module _ (rest : ℕ → ℕ) (op : ℕ → ℕ → ℕ) where
  abbrev digitwise : (rounds x y : ℕ) → ℕ
  digitwise rounds x y = digits rest op rounds x y

  digitwise-zero : (rounds y : ℕ) → digitwise rounds 0 y ≡ rest y
  digitwise-zero zero y = refl
  digitwise-zero (suc rounds) y = refl

  one_more : (rounds x y : ℕ) → x ≤ rounds → digitwise (suc rounds) x y ≡ digitwise rounds x y
  one_more rounds zero y fits = digitwise-zero (suc rounds) y ∙ sym (digitwise-zero rounds y)
  one_more zero (suc x) y fits = absurd (omega arith)
  one_more (suc rounds) (suc x) y fits =
      omega (arith, one_more rounds (suc x / 2) (y / 2) (omega arith))

  many_more :
      (extra rounds x y : ℕ) → x ≤ rounds → digitwise (extra + rounds) x y ≡ digitwise rounds x y
  many_more zero rounds x y fits = ap (λ r. digitwise r x y) (omega arith)
  many_more (suc extra) rounds x y fits =
      let next : suc extra + rounds ≡ suc (extra + rounds) = omega arith in
      ap (λ r. digitwise r x y) next
      ∙ one_more (extra + rounds) x y (omega arith)
      ∙ many_more extra rounds x y fits

  -- As many rounds as the number itself are enough.
  enough : (rounds x y : ℕ) → x ≤ rounds → digitwise rounds x y ≡ digitwise x x y
  enough rounds x y fits =
      let whole : rounds ≡ rounds - x + x = omega arith in
      ap (λ r. digitwise r x y) whole ∙ many_more (rounds - x) x x y (omega arith)

  -- The law for the lowest digit.
  lowest :
      ((y : ℕ) → rest y ≡ rest (y / 2) * 2 + op 0 (y % 2))
      → (x y : ℕ) → digitwise x x y ≡ digitwise (x / 2) (x / 2) (y / 2) * 2 + op (x % 2) (y % 2)
  lowest base zero y = base y
  lowest base (suc x) y = omega (arith, enough x (suc x / 2) (y / 2) (omega arith))

-- Induction on the halves of a number.
by_halves :
    (P : ℕ → Type 0) → P 0 → ((x : ℕ) → P (suc x / 2) → P (suc x)) → (bound x : ℕ) → x ≤ bound → P x
by_halves P at_zero up bound zero fits = at_zero
by_halves P at_zero up zero (suc x) fits = absurd (omega arith)
by_halves P at_zero up (suc bound) (suc x) fits =
    up x (by_halves P at_zero up bound (suc x / 2) (omega arith))

bit_or-lowest : (x y : ℕ) → bit_or x y ≡ bit_or (x / 2) (y / 2) * 2 + max (x % 2) (y % 2)
bit_or-lowest x y = omega (
  arith,
  lowest (λ t. t) max (λ t. omega arith) x y,
  bit_or-bitwise x y,
  bit_or-bitwise (x / 2) (y / 2),
)

bit_and-lowest : (x y : ℕ) → bit_and x y ≡ bit_and (x / 2) (y / 2) * 2 + min (x % 2) (y % 2)
bit_and-lowest x y = omega (
  arith,
  lowest (λ t. 0) min (λ t. omega arith) x y,
  bit_and-bitwise x y,
  bit_and-bitwise (x / 2) (y / 2),
)

bit_or-zero : (x : ℕ) → bit_or x 0 ≡ x
bit_or-zero x =
    by_halves (λ t. bit_or t 0 ≡ t) (bit_or-bitwise 0 0)
      (λ t half. omega (arith, half, bit_or-lowest (suc t) 0)) x x (omega arith)

bit_and-zero : (x : ℕ) → bit_and x 0 ≡ 0
bit_and-zero x =
    by_halves (λ t. bit_and t 0 ≡ 0) (bit_and-bitwise 0 0)
      (λ t half. omega (arith, half, bit_and-lowest (suc t) 0)) x x (omega arith)

bit_or_double : (y s : ℕ) → bit_or (y * 2) s ≡ bit_or y (s / 2) * 2 + s % 2
bit_or_double y s =
    let half : y * 2 / 2 ≡ y = omega arith in
    omega (arith, bit_or-lowest (y * 2) s, ap (λ t. bit_or t (s / 2)) half)

shift_suc : (k x : ℕ) → x * 2 ^ suc k ≡ x * 2 ^ k * 2
shift_suc k x = omega (arith, ap (λ t. x * t) (pow-suc 2 k))

-- The or of a shifted number and one that fits below the shift.
pub bit_or_disjoint : (k x s : ℕ) → s < 2 ^ k → bit_or (x * 2 ^ k) s ≡ x * 2 ^ k + s
bit_or_disjoint zero x s h =
    let none_left : s ≡ 0 = omega arith in
    let whole : x * 2 ^ 0 ≡ x = omega arith in rw (none_left, whole) (omega (arith, bit_or-zero x))
bit_or_disjoint (suc k) x s h = omega (
  arith,
  shift_suc k x,
  ap (λ t. bit_or t s) (shift_suc k x),
  bit_or_double (x * 2 ^ k) s,
  bit_or_disjoint k x (s / 2) (omega (arith, pow-suc 2 k)),
)

-- k ones, as a number.
abbrev pub ones : ℕ → ℕ
ones zero = 0
ones (suc k) = ones k * 2 + 1

ones_lem : (k : ℕ) → ones k + 1 ≡ 2 ^ k
ones_lem zero = refl
ones_lem (suc k) = omega (arith, ones_lem k, pow-suc 2 k)

mod_suc : (k a : ℕ) → a % 2 ^ suc k ≡ a / 2 % 2 ^ k * 2 + a % 2
mod_suc k a =
    let p = 2 ^ k in
    let q = a / 2 / p in
    let r : ℕ = a / 2 % p * 2 + a % 2 in
    let pos : 0 < p = omega (arith, ones_lem k) in
    let below : r < p * 2 = omega (arith, mod-lt (a / 2) pos) in
    let split : a ≡ r + p * 2 * q = omega (arith, div-add-mod (a / 2) p) in
    let at_split : a % 2 ^ suc k ≡ (r + p * 2 * q) % (p * 2) =
      ap₂ (λ x y. x % y) split (omega (arith, pow-suc 2 k)) in
    at_split ∙ add-mul-mod_self_left r (p * 2) q ∙ mod-eq_of_lt below

-- A mask of k ones keeps the remainder.
pub bit_and-ones : (k a : ℕ) → bit_and a (ones k) ≡ a % 2 ^ k
bit_and-ones zero a = omega (arith, bit_and-zero a)
bit_and-ones (suc k) a =
    let half : (ones k * 2 + 1) / 2 ≡ ones k = omega arith in
    omega (
      arith,
      bit_and-lowest a (ones (suc k)),
      ap (bit_and (a / 2)) half,
      bit_and-ones k (a / 2),
      mod_suc k a,
    )

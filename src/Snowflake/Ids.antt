-- ===== src/Snowflake/Ids.antt =====
-- The layout of an id (snowflake.go): tick, machine and sequence number are its three fields.
use Prim.Native.Nat.{bit_and, bit_or}
use instant_message.Prelude.{ℕ, ◌+◌, ◌*◌, ◌/◌, ◌%◌, ◌^◌, ◌<◌, ◌≡◌, ◌∙◌, arith, ap}
use instant_message.Snowflake.{Gen, id_of, get_time_from_id}
use instant_message.Snowflake.Bits.{bit_or_disjoint, bit_and-ones}

-- A machine number of ten bits, shifted, and a sequence number of twelve.
pub record IsValid (g : Gen) : Type 0 where
  pub machine : g.machine_id % 2 ^ 12 ≡ 0
  pub machine_fits : g.machine_id < 2 ^ 22
  pub sn_fits : g.sn < 2 ^ 12

module _ (cur machine sn : ℕ) (shifted : machine % 2 ^ 12 ≡ 0) (fits : machine < 2 ^ 22)
    (small : sn < 2 ^ 12) where
  -- The three fields of an id do not overlap: it is their sum.
  pub id_of-sum : id_of cur machine sn ≡ cur % 2 ^ 41 * 2 ^ 22 + machine + sn
  unfolding id_of
  id_of-sum =
      let low : bit_and cur 0x1ff_ffff_ffff ≡ cur % 2 ^ 41 = bit_and-ones 41 cur in
      let t = cur % 2 ^ 41 * 2 ^ 22 in
      let m = t + machine in
      let whole : m ≡ m / 2 ^ 12 * 2 ^ 12 = omega arith in
      rw (low, bit_or_disjoint 22 (cur % 2 ^ 41) machine fits)
        (ap (λ x. bit_or x sn) whole ∙ bit_or_disjoint 12 (m / 2 ^ 12) sn small ∙ omega arith)

  -- The tick is read back from an id, up to its low 41 bits.
  pub get_time_from_id-id_of : get_time_from_id (id_of cur machine sn) ≡ cur % 2 ^ 41
  unfolding get_time_from_id
  get_time_from_id-id_of = omega (arith, id_of-sum)

-- ===== src/Snowflake/Sequence.antt =====
-- The ids that calls of `GetSnowflakeId` (snowflake.go) give, one after the other.
use mathlib.Core.Path.{subst}
use instant_message.Prelude.{
  sym, ℕ, ◌+◌, ◌*◌, ◌%◌, ◌^◌, ◌<◌, ◌≡◌, ◌⊎◌, inl, inr, List, [], ◌∷◌, arith,
}
use instant_message.Snowflake.{Gen, Clock, id_of, get_snowflake_id, exhausted}
use instant_message.Snowflake.Ids.{IsValid, id_of-sum}

-- What the sleeps are for: when they are taken, the clock has moved past the last tick. The ticks fit
-- the 41 bits of an id.
pub record Forward (g : Gen) (c : Clock) : Type 0 where
  pub moved : g.last_time_stamp < (exhausted g c).last_time_stamp
  pub entry_fits : c.entry < 2 ^ 41
  pub moved_fits : (exhausted g c).last_time_stamp < 2 ^ 41

-- A call keeps the machine number and a sequence number of twelve bits.
pub get_snowflake_id-IsValid : (g : Gen) (c : Clock) → IsValid g → IsValid (get_snowflake_id g c).0
unfolding get_snowflake_id
get_snowflake_id-IsValid g c v = ground arith

abbrev pub last_id : Gen → ℕ
last_id g = id_of g.last_time_stamp g.machine_id g.sn

last_id-sum :
    (g : Gen) → IsValid g → last_id g ≡ g.last_time_stamp % 2 ^ 41 * 2 ^ 22 + g.machine_id + g.sn
last_id-sum g v = id_of-sum g.last_time_stamp g.machine_id g.sn v.machine v.machine_fits v.sn_fits

-- The state moves forward in time, or within a tick in the sequence number; or the call fails.
advances :
    (g : Gen) (c : Clock)
    → IsValid g
    → Forward g c
    → let (g', id) = get_snowflake_id g c in
      ((id ≡ 0) × (g' ≡ g))
      ⊎ ((id ≡ last_id g')
          × (g'.machine_id ≡ g.machine_id)
          × (g'.last_time_stamp < 2 ^ 41)
          × ((g.last_time_stamp < g'.last_time_stamp)
              ⊎ ((g.last_time_stamp ≡ g'.last_time_stamp) × (g.sn < g'.sn))))
unfolding get_snowflake_id
advances g c v f = ground arith

-- A call with a moving clock gives an id above the last one, or fails with 0 and changes nothing.
pub get_snowflake_id-increases :
    (g : Gen) (c : Clock)
    → IsValid g
    → Forward g c
    → let (g', id) = get_snowflake_id g c in
      ((id ≡ 0) × (g' ≡ g)) ⊎ ((id ≡ last_id g') × (last_id g < id))
get_snowflake_id-increases g c v f = ground (
  arith,
  advances g c v f,
  last_id-sum g v,
  last_id-sum (get_snowflake_id g c).0 (get_snowflake_id-IsValid g c v),
)

-- The ids of a sequence of calls.
abbrev pub ids : Gen → List Clock → List ℕ
ids g [] = []
ids g (c ∷ cs) = let (g', id) = get_snowflake_id g c in id ∷ ids g' cs

abbrev pub AllForward : Gen → List Clock → Type 0
AllForward g [] = Unit
AllForward g (c ∷ cs) = Forward g c × AllForward (get_snowflake_id g c).0 cs

-- Every id but the failures, which are 0, is above `low` and above all before it.
abbrev pub Rising : (low : ℕ) → List ℕ → Type 0
Rising low [] = Unit
Rising low (id ∷ rest) = ((id ≡ 0) × Rising low rest) ⊎ ((low < id) × Rising id rest)

-- While the clock moves forward, the ids of a generator rise strictly, failures apart: none is given
-- twice.
pub ids-Rising :
    (g : Gen) (cs : List Clock) → IsValid g → AllForward g cs → Rising (last_id g) (ids g cs)
ids-Rising g [] v f = tt
ids-Rising g (c ∷ cs) v (f, fs) =
    let (g', id) = get_snowflake_id g c in
    let rest = ids-Rising g' cs (get_snowflake_id-IsValid g c v) fs in
    elim (get_snowflake_id-increases g c v f) [
      | inl (failed, same) ↦ inl (failed, subst (λ x. Rising (last_id x) (ids g' cs)) same rest)
      | inr (issued, above) ↦ inr (above, subst (λ x. Rising x (ids g' cs)) (sym issued) rest)
    ]

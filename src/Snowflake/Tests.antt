-- ===== src/Snowflake/Tests.antt =====
-- The theorems on ids at a concrete machine and clock.
use instant_message.Prelude.{◌≡◌, ◌%◌, ◌^◌, refl, arith, [], ◌∷◌}
use instant_message.Snowflake.{Gen, Clock, id_of, get_time_from_id}
use instant_message.Snowflake.Ids.{IsValid, get_time_from_id-id_of}
use instant_message.Snowflake.Sequence.{AllForward, Rising, ids, last_id, ids-Rising}

-- The machine 1 in the tick 100.
abbrev gen : Gen
gen = record { machine_id = 4096; sn = 0; last_time_stamp = 100 }

abbrev same_tick : Clock
same_tick = record { entry = 100; slept = 101; slept_twice = 102 }

abbrev next_tick : Clock
next_tick = record { entry = 101; slept = 102; slept_twice = 103 }

gen-IsValid : IsValid gen
gen-IsValid = record { machine = refl; machine_fits = omega arith; sn_fits = omega arith }

gen-AllForward : AllForward gen (same_tick ∷ [])
gen-AllForward =
    (record { moved = omega arith; entry_fits = omega arith; moved_fits = omega arith }, tt)

ids-Rising_example : Rising (last_id gen) (ids gen (same_tick ∷ []))
ids-Rising_example = ids-Rising gen (same_tick ∷ []) gen-IsValid gen-AllForward

get_time_from_id-id_of_example : get_time_from_id (id_of 100 4096 5) ≡ 100 % 2 ^ 41
get_time_from_id-id_of_example = get_time_from_id-id_of 100 4096 5 refl (omega arith) (omega arith)

-- ===== src/Snowflake.antt =====
-- common-library/snowflake/snowflake.go: unique 64-bit ids from the clock, a machine number and a
-- sequence number. The lock makes a call one step; the clock's readings, `UnixNano() >> 20`, are
-- arguments, in the order in which a call takes them.
pub mod Bits
pub mod Ids
pub mod Sequence
pub mod Tests
use Prim.Native.Nat.{bit_and, bit_or}
use instant_message.Prelude.{ℕ, ◌+◌, ◌*◌, ◌/◌, ◌^◌, ◌==◌, ltb, if◌then◌else◌}

-- `machineID` is kept shifted; `lastTimeStamp` is the tick of the last id.
pub record Gen : Type 0 where
  pub machine_id : ℕ
  pub sn : ℕ
  pub last_time_stamp : ℕ

unfoldable pub set_machine_id : ℕ → Gen → Gen
set_machine_id mid g = record g { machine_id = mid * 2 ^ 12 }

-- The readings of one call: on entry, after the first sleep and after the second.
pub record Clock : Type 0 where
  pub entry : ℕ
  pub slept : ℕ
  pub slept_twice : ℕ

unfoldable pub get_time_from_id : ℕ → ℕ
get_time_from_id id = id / 2 ^ 22

-- `curTimeStamp & 0x1FFFFFFFFFF << 22 | machineID | sn`.
unfoldable pub id_of : (cur machine_id sn : ℕ) → ℕ
id_of cur machine_id sn = bit_or (bit_or (bit_and cur 0x1ff_ffff_ffff * 2 ^ 22) machine_id) sn

abbrev pub issue : Gen → Gen × ℕ
issue g = (g, id_of g.last_time_stamp g.machine_id g.sn)

-- The sequence number has run out in this tick: sleep until the clock has moved.
abbrev pub exhausted : Gen → Clock → Gen
exhausted g c =
    let cur = if g.last_time_stamp == c.slept then c.slept_twice else c.slept in
    record g { last_time_stamp = cur; sn = 0 }

-- Zero is the error.
unfoldable pub get_snowflake_id : Gen → Clock → Gen × ℕ
get_snowflake_id g c =
    if c.entry == g.last_time_stamp
    then if ltb 4095 (g.sn + 1) then issue (exhausted g c) else issue (record g { sn = g.sn + 1 })
    else if ltb g.last_time_stamp c.entry
    then issue (record g { last_time_stamp = c.entry; sn = 0 })
    else (g, 0)

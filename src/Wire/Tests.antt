-- ===== src/Wire/Tests.antt =====
-- The theorems on frames at concrete streams.
use instant_message.Prelude.{◌≡◌, true, some, [], ◌∷◌, arith, is_some}
use instant_message.Wire.{Bytes, read_with_callback, eof}
use instant_message.Wire.Streams.{
  read_with_callback_total, pack_all, frames, read_with_callback-pack_all,
}

-- A frame of two bytes and the first byte of the next.
abbrev stream : Bytes
stream = 0 ∷ 0 ∷ 0 ∷ 5 ∷ 0 ∷ 0 ∷ 0 ∷ 2 ∷ 7 ∷ 8 ∷ 0 ∷ []

read_with_callback_total_example : is_some (read_with_callback 12 16 stream) ≡ true
read_with_callback_total_example = read_with_callback_total 12 16 stream (omega arith)

read_with_callback-pack_all_example :
    read_with_callback 3 16 (pack_all ((5, 7 ∷ 8 ∷ []) ∷ (6, []) ∷ []))
    ≡ some (frames ((5, 7 ∷ 8 ∷ []) ∷ (6, []) ∷ []), eof)
read_with_callback-pack_all_example =
    read_with_callback-pack_all 16 ((5, 7 ∷ 8 ∷ []) ∷ (6, []) ∷ [])
      (omega arith, omega arith, (omega arith, omega arith, tt))

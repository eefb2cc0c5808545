-- ===== src/Wire/Streams.antt =====
-- What a reader of Wire gives on any stream: no byte is lost, and the loop ends.
use mathlib.Core.List.{append_assoc}
use instant_message.Prelude.{
  ℕ, zero, suc, ◌^◌, ◌≤◌, ◌<◌, ◌≡◌, refl, ap, ◌∙◌, true, List, [], ◌∷◌, ◌++◌, some, is_some, arith,
  length, drop, length-append, take-append-drop, length-take, Bool-cases, inl, inr, leb, ltb, none,
}
use instant_message.Wire.{
  Bytes, pack_byte_msg, read_full, full, Full, short, read, frame, Read, failed, eof,
  read_with_callback, packet_header_size, get_uint32, after_body, after_header, Log, prepend,
  after_read,
}
use instant_message.Wire.Frames.{read-pack_byte_msg}

abbrev FullOf : ℕ → Bytes → Full → Type 0
FullOf n s (full b r) = (b ++ r ≡ s) × (length b ≡ n)
FullOf n s (short e) = Unit

read_full-FullOf : (n : ℕ) (s : Bytes) → FullOf n s (read_full n s)
unfolding read_full
read_full-FullOf n s = elim (Bool-cases (leb n (length s))) [
  | inl h ↦ rw (h, read_full) (take-append-drop n s, length-take n s (ground arith))
  | inr h ↦ rw (h, read_full) tt
]

abbrev pub FrameOf : Bytes → Read → Type 0
FrameOf s (frame b r) = (b ++ r ≡ s) × (packet_header_size ≤ length b)
FrameOf s (failed e) = Unit

module _ (s : Bytes) where
  after_body-FrameOf :
      (header rest : Bytes) (n : ℕ) (r : Full)
      → header ++ rest ≡ s
      → packet_header_size ≤ length header
      → FullOf n rest r
      → FrameOf s (after_body header r)
  after_body-FrameOf header rest n (full b r) e h (eb, hb) =
      (append_assoc header b r ∙ ap (◌++◌ header) eb ∙ e, omega (arith, length-append header b))
  after_body-FrameOf header rest n (short x) e h f = tt

  after_header-FrameOf :
      (max : ℕ) (r : Full) → FullOf packet_header_size s r → FrameOf s (after_header max r)
  after_header-FrameOf max (short e) f = tt
  after_header-FrameOf max (full header rest) (e, h) =
      let n = get_uint32 (drop 4 header) in
      elim (Bool-cases (ltb max n)) [
        | inl over ↦ rw over tt
        | inr fits ↦ rw fits (
            after_body-FrameOf header rest n (read_full n rest) e (omega arith)
              (read_full-FullOf n rest))
      ]

  -- A frame that is read, followed by what is left of the stream, is the stream; it holds a header.
  pub read-FrameOf : (max : ℕ) → FrameOf s (read max s)
  unfolding read
  read-FrameOf max =
      after_header-FrameOf max (read_full packet_header_size s)
        (read_full-FullOf packet_header_size s)

frame_shortens : (s b r : Bytes) → b ++ r ≡ s → packet_header_size ≤ length b → length r < length s
frame_shortens s b r e h = omega (arith, ap length e, length-append b r)

is_some-prepend : (b : Bytes) (l : Log) → is_some l ≡ true → is_some (prepend b l) ≡ true
is_some-prepend b none h = h
is_some-prepend b (some l) h = refl

after_read_total :
    (again : Bytes → Log) (s : Bytes) (r : Read)
    → FrameOf s r
    → ((t : Bytes) → length t < length s → is_some (again t) ≡ true)
    → is_some (after_read again r) ≡ true
after_read_total again s (failed e) f h = refl
after_read_total again s (frame b r) (e, hb) h =
    is_some-prepend b (again r) (h r (frame_shortens s b r e hb))

-- With more fuel than the stream has bytes, the loop of `ReadWithCallback` ends with an error.
pub read_with_callback_total :
    (fuel max : ℕ) (s : Bytes) → length s < fuel → is_some (read_with_callback fuel max s) ≡ true
unfolding read_with_callback
read_with_callback_total zero max s h = absurd (omega arith)
read_with_callback_total (suc fuel) max s h =
    after_read_total (read_with_callback fuel max) s (read max s) (read-FrameOf s max)
      λ t lt. read_with_callback_total fuel max t (omega arith)

abbrev pub pack_all : List (ℕ × Bytes) → Bytes
pack_all [] = []
pack_all ((id, content) ∷ ms) = pack_byte_msg id content ++ pack_all ms

abbrev pub frames : List (ℕ × Bytes) → List Bytes
frames [] = []
frames ((id, content) ∷ ms) = pack_byte_msg id content ∷ frames ms

abbrev pub AllFit : ℕ → List (ℕ × Bytes) → Type 0
AllFit max [] = Unit
AllFit max ((id, content) ∷ ms) = (length content ≤ max) × (length content < 2 ^ 32) × AllFit max ms

read_nil : (max : ℕ) → read max [] ≡ failed eof
unfolding read read_full
read_nil max = refl

-- A stream of framed messages within the limit is handed to the callback message by message, in order,
-- and the loop ends at the end of the stream.
pub read_with_callback-pack_all :
    (max : ℕ) (ms : List (ℕ × Bytes))
    → AllFit max ms
    → read_with_callback (suc (length ms)) max (pack_all ms) ≡ some (frames ms, eof)
unfolding read_with_callback
read_with_callback-pack_all max [] h = rw (read_nil max)
read_with_callback-pack_all max ((id, content) ∷ ms) (fits, small, rest) =
    rw (read-pack_byte_msg max id content (pack_all ms) fits small)
      (rw (read_with_callback-pack_all max ms rest))

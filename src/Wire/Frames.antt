-- ===== src/Wire/Frames.antt =====
-- Round trips of the numbers and the frames of Wire.
use instant_message.Prelude.{
  ℕ, ◌^◌, ◌%◌, ◌≤◌, ◌<◌, ◌≡◌, refl, ◌++◌, true, arith, length, drop, leb, take-append, drop-append,
  length-append,
}
use instant_message.Wire.{
  Bytes, put_uint32, put_uint64, get_uint32, get_uint64, pack_byte_msg, read_full, full, read,
  frame, read_packet2, packet_header_size,
}

get_put_uint32 : (n : ℕ) (r : Bytes) → get_uint32 (put_uint32 n ++ r) ≡ n % 2 ^ 32
unfolding get_uint32 put_uint32
get_put_uint32 n r = omega arith

-- A number below 2 ^ 64 is read back from its eight bytes, whatever follows.
pub get_put_uint64 : (n : ℕ) (r : Bytes) → n < 2 ^ 64 → get_uint64 (put_uint64 n ++ r) ≡ n
unfolding get_uint64 put_uint64 get_uint32 put_uint32
get_put_uint64 n r h = omega arith

length-le-append : (xs ys : Bytes) → leb (length xs) (length (xs ++ ys)) ≡ true
length-le-append xs ys = ground (arith, length-append xs ys)

pub read_full-append : (xs ys : Bytes) → read_full (length xs) (xs ++ ys) ≡ full xs ys
unfolding read_full
read_full-append xs ys = rw (length-le-append xs ys, take-append xs ys, drop-append xs ys)

read_full-header :
    (msg_id len : ℕ) (rest : Bytes)
    → read_full 8 (put_uint32 msg_id ++ put_uint32 len ++ rest)
      ≡ full (put_uint32 msg_id ++ put_uint32 len) rest
unfolding put_uint32
read_full-header msg_id len rest = read_full-append _ rest

length_field :
    (msg_id len : ℕ)
    → len < 2 ^ 32
    → get_uint32 (drop 4 (put_uint32 msg_id ++ put_uint32 len)) ≡ len
unfolding put_uint32 get_uint32
length_field msg_id len h = omega arith

module _ (msg_id : ℕ) (content rest : Bytes) where
  read_full-pack_byte_msg :
      read_full packet_header_size (pack_byte_msg msg_id content ++ rest)
      ≡ full (put_uint32 msg_id ++ put_uint32 (length content)) (content ++ rest)
  unfolding pack_byte_msg
  read_full-pack_byte_msg = read_full-header msg_id (length content) (content ++ rest)

  append-pack_byte_msg :
      (put_uint32 msg_id ++ put_uint32 (length content)) ++ content ≡ pack_byte_msg msg_id content
  unfolding pack_byte_msg
  append-pack_byte_msg = refl

-- A framed message that is within the reader's limit is read back whole, and the reader stops where
-- the next frame begins.
pub read-pack_byte_msg :
    (max msg_id : ℕ) (content rest : Bytes)
    → length content ≤ max
    → length content < 2 ^ 32
    → read max (pack_byte_msg msg_id content ++ rest) ≡ frame (pack_byte_msg msg_id content) rest
unfolding read
read-pack_byte_msg max msg_id content rest h w = ground (
  arith,
  read_full-pack_byte_msg msg_id content rest,
  length_field msg_id (length content) w,
  read_full-append content rest,
  append-pack_byte_msg msg_id content rest,
)

-- The reader of the robots is the socket's with the limit of one megabyte less a header.
pub read_packet2-read : (s : Bytes) → read_packet2 s ≡ read 1_048_568 s
unfolding read_packet2 read
read_packet2-read s = ground arith

-- ===== src/Wire.antt =====
-- The framing of messages: common-library/packet/packet.go, im-library/im_net/socket.go, the senders
-- of common-library/function/function.go and the queue frames of im-library/redisPubSub. Bytes are
-- numbers below 256; encoding/binary and io.ReadFull are modelled as the Go library documents them.
pub mod Frames
pub mod Streams
pub mod Tests
use instant_message.Prelude.{
  ℕ, suc, zero, ◌+◌, ◌*◌, ◌/◌, ◌%◌, ◌^◌, Bool, List, [], ◌∷◌, ◌++◌, Option, none, some, length,
  take, drop, leb, ltb, if◌then◌else◌,
}

abbrev pub Bytes : Type 0
Bytes = List ℕ

-- binary.BigEndian.PutUint32 and PutUint64, which keep the low bits.
unfoldable pub put_uint32 : ℕ → Bytes
put_uint32 n = n / 2 ^ 24 % 256 ∷ n / 2 ^ 16 % 256 ∷ n / 2 ^ 8 % 256 ∷ n % 256 ∷ []

unfoldable pub put_uint64 : ℕ → Bytes
unfolding put_uint32
put_uint64 n = put_uint32 (n / 2 ^ 32) ++ put_uint32 n

-- binary.BigEndian.Uint32 and Uint64; Go panics on a shorter slice, which no caller passes.
unfoldable pub get_uint32 : Bytes → ℕ
get_uint32 (a ∷ b ∷ c ∷ d ∷ r) = a * 2 ^ 24 + b * 2 ^ 16 + c * 2 ^ 8 + d
get_uint32 _ = 0

unfoldable pub get_uint64 : Bytes → ℕ
unfolding get_uint32
get_uint64 b = get_uint32 b * 2 ^ 32 + get_uint32 (drop 4 b)

abbrev pub packet_header_size : ℕ
packet_header_size = 8

-- `uint32(len(msg))` is the truncation that `put_uint32` makes.
unfoldable pub pack_byte_msg : (msg_id : ℕ) → Bytes → Bytes
unfolding put_uint32
pack_byte_msg msg_id content = put_uint32 msg_id ++ put_uint32 (length content) ++ content

-- `Pb2Bytes` and the senders: what `proto.Marshal` returned, framed.
unfoldable pub pb_to_bytes : (cmd_id : ℕ) → Option Bytes → Option Bytes
unfolding pack_byte_msg
pb_to_bytes cmd_id none = none
pb_to_bytes cmd_id (some msg) = some (pack_byte_msg cmd_id msg)

pub data ReadError : Type 0 where
  eof unexpected_eof : ReadError
  over_max : (msg_id msg_len : ℕ) → ReadError

-- io.ReadFull: the bytes and the rest of the stream, or the error of a stream that ends before.
pub data Full : Type 0 where
  full : Bytes → (rest : Bytes) → Full
  short : ReadError → Full

abbrev end_error : Bytes → ReadError
end_error [] = eof
end_error (b ∷ bs) = unexpected_eof

unfoldable pub read_full : ℕ → Bytes → Full
read_full n s = if leb n (length s) then full (take n s) (drop n s) else short (end_error s)

pub data Read : Type 0 where
  frame : Bytes → (rest : Bytes) → Read
  failed : ReadError → Read

-- The second `io.ReadFull`, of the body behind the header.
abbrev pub after_body : (header : Bytes) → Full → Read
after_body header (full body rest) = frame (header ++ body) rest
after_body header (short e) = failed e

abbrev pub after_header : (max : ℕ) → Full → Read
after_header max (full header rest) =
    let msg_len = get_uint32 (drop 4 header) in
    if ltb max msg_len
    then failed (over_max (get_uint32 header) msg_len)
    else after_body header (read_full msg_len rest)
after_header max (short e) = failed e

-- `Socket.read`.
unfoldable pub read : (max_read_size : ℕ) → Bytes → Read
read max s = after_header max (read_full packet_header_size s)

abbrev pub after_header2 : Full → Read
after_header2 (full header rest) =
    let body_len = get_uint32 (drop 4 header) in
    if leb body_len 1_048_568
    then after_body header (read_full body_len rest)
    else failed (over_max (get_uint32 header) body_len)
after_header2 (short e) = failed e

-- `ReadPacket2`, the reader of the robots and the login connections.
unfoldable pub read_packet2 : Bytes → Read
read_packet2 s = after_header2 (read_full packet_header_size s)

abbrev pub Log : Type 0
Log = Option (List Bytes × ReadError)

abbrev pub prepend : Bytes → Log → Log
prepend b none = none
prepend b (some (bs, e)) = some (b ∷ bs, e)

abbrev pub after_read : (again : Bytes → Log) → Read → Log
after_read again (frame b rest) = prepend b (again rest)
after_read again (failed e) = some ([], e)

-- `ReadWithCallback`: the frames handed to the callback and the error that ends the loop, on fuel.
unfoldable pub read_with_callback : (fuel max : ℕ) → Bytes → Log
read_with_callback zero max s = none
read_with_callback (suc fuel) max s = after_read (read_with_callback fuel max) (read max s)

-- redisPubSub.SendPbMsg and SendGroupBuf: the queue frame.
unfoldable pub queue_frame : (receiver_id group_id cmd_id : ℕ) → Bytes → Bytes
unfolding put_uint64 pack_byte_msg
queue_frame receiver_id group_id cmd_id msg =
    put_uint64 receiver_id ++ put_uint64 group_id ++ pack_byte_msg cmd_id msg

-- ===== src/Online/Routing.antt =====
-- What `HandleMQMessage` (msg-server/msgServerApp/recvMQMessage.go) does with the frames that
-- `redisPubSub.SendPbMsg` and `SendGroupBuf` publish.
use instant_message.Prelude.{
  ℕ, ◌^◌, ◌<◌, ◌≡◌, refl, true, [], ◌∷◌, ◌++◌, arith, length, drop, leb, ◌==◌, if◌then◌else◌,
}
use instant_message.Wire.{Bytes, queue_frame, pack_byte_msg, put_uint64, get_uint32, get_uint64}
use instant_message.Wire.Frames.{get_put_uint64}
use instant_message.Online.{
  Table, handed, get_client, handle_mq_message, send_group_chat, mq_group_chat, terminal_type_app,
  terminal_type_web,
}

module _ (receiver group cmd : ℕ) (msg : Bytes) where
  frame_receiver : receiver < 2 ^ 64 → get_uint64 (queue_frame receiver group cmd msg) ≡ receiver
  unfolding queue_frame
  frame_receiver h = get_put_uint64 receiver (put_uint64 group ++ pack_byte_msg cmd msg) h

  frame_group : group < 2 ^ 64 → get_uint64 (drop 8 (queue_frame receiver group cmd msg)) ≡ group
  unfolding queue_frame
  frame_group h = get_put_uint64 group (pack_byte_msg cmd msg) h

  frame_body : drop 16 (queue_frame receiver group cmd msg) ≡ pack_byte_msg cmd msg
  unfolding queue_frame
  frame_body = refl

  frame_long : leb 24 (length (queue_frame receiver group cmd msg)) ≡ true
  unfolding queue_frame
  frame_long = ground arith

  frame_cmd : cmd < 2 ^ 32 → get_uint32 (pack_byte_msg cmd msg) ≡ cmd
  unfolding pack_byte_msg get_uint32
  frame_cmd h = omega arith

  frame_content : drop 8 (pack_byte_msg cmd msg) ≡ msg
  unfolding pack_byte_msg
  frame_content = refl

module _ (m : Table) where
  -- A message published for a user is handed, as the framed message that its sender packed, to the
  -- user's app client and to the user's web client, to each that is connected and to no other.
  pub handle_mq_message-user :
      (receiver cmd : ℕ) (msg : Bytes)
      → 0 < receiver
      → receiver < 2 ^ 63
      → handle_mq_message m (queue_frame receiver 0 cmd msg)
        ≡ handed (get_client receiver terminal_type_app m) (pack_byte_msg cmd msg)
          ++ handed (get_client receiver terminal_type_web m) (pack_byte_msg cmd msg)
  unfolding handle_mq_message
  handle_mq_message-user receiver cmd msg p h = ground (
    arith,
    frame_receiver receiver 0 cmd msg (omega arith),
    frame_body receiver 0 cmd msg,
    frame_long receiver 0 cmd msg,
  )

  -- A message published for a group reaches the local group chat when it is a group chat message, and
  -- is dropped when it is any other.
  pub handle_mq_message-group :
      (group cmd : ℕ) (msg : Bytes)
      → 0 < group
      → group < 2 ^ 63
      → cmd < 2 ^ 32
      → handle_mq_message m (queue_frame 0 group cmd msg)
        ≡ (if cmd == mq_group_chat then send_group_chat msg ∷ [] else [])
  unfolding handle_mq_message
  handle_mq_message-group group cmd msg p h w = ground (
    arith,
    frame_receiver 0 group cmd msg (omega arith),
    frame_group 0 group cmd msg (omega arith),
    frame_body 0 group cmd msg,
    frame_long 0 group cmd msg,
    frame_cmd 0 group cmd msg w,
    frame_content 0 group cmd msg,
  )

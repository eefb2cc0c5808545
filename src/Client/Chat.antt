-- ===== src/Client/Chat.antt =====
-- msg-server/client/privateChat.go: sending a private message. The fields of a message that the
-- handler passes on unread are its text; the push to devices goes through the environment.
pub mod Sending
pub mod Keeps
use instant_message.Prelude.{
  ℕ, String, Bool, true, false, not, Option, none, some, ◌==◌, signed_ltb, if◌then◌else◌,
}
use instant_message.Online.{positive}
use instant_message.Client.{Client, is_friend}
use instant_message.Client.Message.{
  MsgType, VoiceMessage, FileMessage, VideoMessage, CardMessage, ChatMessage, PushInfo, is_blank,
  is_voice, is_file, is_video, is_card, is_known,
}
use instant_message.Client.Session.{
  Call, Env, Session, ErrCode, M, ◌>>=◌, ◌>>◌, pure, stop, when, gets, call, ask, read_now, reject,
  run, send, mq, publish, is_set_member, friend_set, agent_set, get_brief_info, get_portrait,
  store_chat, user_online, get_push_info, push, private_chat_ack, mq_private_chat,
  private_chat_event, unmarshal_private_chat, receiver_illegal, receiver_is_not_friend,
  receiver_type_illegal, message_type_not_match, voice_url_is_empty, voice_too_long,
  file_url_is_empty, file_thumbnail_is_empty, video_url_is_empty, video_thumbnail_is_empty,
  card_is_empty,
}
use instant_message.Client.Agents.{is_agent_or_member}

abbrev pub or_else : Option String → String → String
or_else none d = d
or_else (some t) d = t

-- The checks of the message's part, by its type; `none` is no objection.
abbrev pub voice_error : Option VoiceMessage → Option ErrCode
voice_error none = some message_type_not_match
voice_error (some v) =
    if is_blank v.audio_url
    then some voice_url_is_empty
    else if signed_ltb 60 v.audio_second
    then some voice_too_long
    else none

abbrev pub file_error : Option FileMessage → Option ErrCode
file_error none = some message_type_not_match
file_error (some f) =
    if is_blank f.file_url
    then some file_url_is_empty
    else if is_blank f.file_thumbnail
    then some file_thumbnail_is_empty
    else none

abbrev pub video_error : Option VideoMessage → Option ErrCode
video_error none = some message_type_not_match
video_error (some v) =
    if is_blank v.video_url
    then some video_url_is_empty
    else if is_blank v.video_thumbnail
    then some video_thumbnail_is_empty
    else none

abbrev pub card_error : Option CardMessage → Option ErrCode
card_error none = some card_is_empty
card_error (some c) = none

abbrev pub part_error : ChatMessage → Option ErrCode
part_error m =
    if is_voice m.msg_type
    then voice_error m.voice_message
    else if is_file m.msg_type
    then file_error m.file_message
    else if is_video m.msg_type
    then video_error m.video_message
    else if is_card m.msg_type
    then card_error m.card_message
    else none

abbrev pub refuse : Option ErrCode → M (Unit {0}) (Unit {0})
refuse none = pure tt
refuse (some code) = reject code 0

-- The portrait and the nick name that the server knows replace the client's.
abbrev pub filled : Option CardMessage → String → Option String → Option CardMessage
filled none portrait nick_name = none
filled (some c) portrait nick_name = some (record c {
  portrait = if is_blank portrait then c.portrait else portrait;
  card_nick_name = or_else nick_name c.card_nick_name;
})

abbrev pub card_owner : Option CardMessage → ℕ
card_owner none = 0
card_owner (some c) = c.card_id

module _ (e : Env) where
  fill_card : ChatMessage → M (Unit {0}) ChatMessage
  fill_card m s = elim (is_card m.msg_type) [
    | true ↦
        (do
          portrait ← ask e.text (get_portrait (card_owner m.card_message))
          nick_name ← ask e.text (get_brief_info (card_owner m.card_message))
          pure (record m { card_message = filled m.card_message (or_else portrait "") nick_name }))
          s
    | false ↦ pure m s
  ]

  push_to : Option PushInfo → M (Unit {0}) (Unit {0})
  push_to none = pure tt
  push_to (some info) = call (push info)

  -- To the receiver's server if the receiver is online, else as a push.
  deliver : ChatMessage → M (Unit {0}) (Unit {0})
  unfolding push_to
  deliver m = do
    online ← ask e.ok (user_online m.receiver_id)
    when online (call (mq m.receiver_id (mq_private_chat m)))
    when (not online) do info ← ask e.push_info (get_push_info m.receiver_id); push_to info

  send_checked : ChatMessage → (client_time : ℕ) → M (Unit {0}) (Unit {0})
  unfolding deliver
  send_checked m client_time = do
    ts ← read_now e
    let sent = record m { srv_time_stamp = ts }
    when (e.marshal_chat sent)
        do call (store_chat sent.sender_id sent ts); call (store_chat sent.receiver_id sent ts)
    deliver sent
    call (send (private_chat_ack sent.receiver_id ts client_time))
    call (publish (private_chat_event sent))

  -- The message of a sender whose relation to the receiver is checked.
  unfoldable pub sign_and_send : ChatMessage → (client_time : ℕ) → M (Unit {0}) (Unit {0})
  unfolding fill_card send_checked
  sign_and_send m client_time = do
    when (not (is_known m.msg_type)) (reject receiver_type_illegal 0)
    me ← gets (λ c. c.account_id)
    name ← gets (λ c. c.nick_name)
    portrait ← ask e.text (get_portrait me)
    let signed = record m {
      sender_id = me;
      sender_name = name;
      sender_head_portrait_url = or_else portrait "";
    }
    refuse (part_error signed)
    filled_in ← fill_card signed
    send_checked filled_in client_time

  -- Each must be the other's friend, or one the agent of the other.
  unfoldable pub check_relation : (receiver : ℕ) → M (Unit {0}) (Unit {0})
  check_relation receiver = do
    me ← gets (λ c. c.account_id)
    friend ← gets (λ c. is_friend c receiver)
    when (not friend) do
      related ← is_agent_or_member e receiver
      when (not related) (reject receiver_is_not_friend 0)
    his_friend ← ask e.affected (is_set_member friend_set receiver me)
    when (not (his_friend == 1)) do
      his_member ← ask e.affected (is_set_member agent_set receiver me)
      when (not (his_member == 1)) do
        related ← is_agent_or_member e receiver
        when (not related) (reject receiver_is_not_friend 0)

  -- The message as far as it was unmarshalled, and the client's time.
  pub c2s_private_chat :
      (parsed : Bool) → Option ChatMessage → (client_time : ℕ) → Session → Session
  unfolding check_relation sign_and_send
  c2s_private_chat false message client_time = run (reject unmarshal_private_chat 0)
  c2s_private_chat true none client_time = run (pure tt)
  c2s_private_chat true (some m) client_time = run do
    when (not (positive m.receiver_id)) (reject receiver_illegal 0)
    check_relation m.receiver_id
    sign_and_send m client_time

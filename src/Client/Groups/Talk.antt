-- ===== src/Client/Groups/Talk.antt =====
-- msg-server/client/chatGroup.go: `C2SGroupChat`. What of a message the handler passes on unread is its
-- text.
pub mod Signed
pub mod Keeps
use instant_message.Prelude.{
  ℕ, String, Bool, true, false, not, ◌&&◌, ◌||◌, Option, none, some, is_some, List, [], ◌∷◌, ◌++◌,
  signed_ltb, if◌then◌else◌,
}
use instant_message.Client.Message.{
  VoiceMessage, FileMessage, VideoMessage, CardMessage, PushInfo, is_blank, is_voice, is_file,
  is_video, is_card, is_known,
}
use instant_message.Client.GroupMessage.{
  GroupMessage, HashItem, get_group_info, get_all_members, store_group_chat, push_all,
  unmarshal_chat, chat_msg_is_nil, chat_msg_is_illegal, chat_sender_is_not_member, type_not_match,
  chat_voice_url_is_empty, chat_voice_too_long, chat_file_url_is_empty,
  chat_file_thumbnail_is_empty, chat_video_url_is_empty, chat_video_thumbnail_is_empty,
  marshal_chat_failed, chat_store_failed, group_chat_ack, chat_event,
}
use instant_message.Client.Session.{
  Call, Env, Session, ErrCode, M, ◌>>=◌, ◌>>◌, pure, stop, when, gets, ask, read_now, run,
  group_error, group_call, card_is_empty, get_brief_info, get_portrait, user_online, get_push_info,
}
use instant_message.Client.Chat.{or_else, refuse, filled, card_owner}
use instant_message.Client.Groups.{
  group_reject, ask_group, answer, publish_group, is_group_member, member_ids,
}

-- The checks of the message's part, by its type; `none` is no objection.
abbrev group_voice_error : Option VoiceMessage → Option ErrCode
group_voice_error none = some (group_error type_not_match)
group_voice_error (some v) =
    if is_blank v.audio_url
    then some (group_error chat_voice_url_is_empty)
    else if signed_ltb 60 v.audio_second
    then some (group_error chat_voice_too_long)
    else none

abbrev group_file_error : Option FileMessage → Option ErrCode
group_file_error none = some (group_error type_not_match)
group_file_error (some f) =
    if is_blank f.file_url
    then some (group_error chat_file_url_is_empty)
    else if is_blank f.file_thumbnail
    then some (group_error chat_file_thumbnail_is_empty)
    else none

abbrev group_video_error : Option VideoMessage → Option ErrCode
group_video_error none = some (group_error type_not_match)
group_video_error (some v) =
    if is_blank v.video_url
    then some (group_error chat_video_url_is_empty)
    else if is_blank v.video_thumbnail
    then some (group_error chat_video_thumbnail_is_empty)
    else none

abbrev group_card_error : Option CardMessage → Option ErrCode
group_card_error none = some card_is_empty
group_card_error (some c) = none

abbrev group_part_error : GroupMessage → Option ErrCode
group_part_error m =
    if is_voice m.msg_type
    then group_voice_error m.voice_message
    else if is_file m.msg_type
    then group_file_error m.file_message
    else if is_video m.msg_type
    then group_video_error m.video_message
    else if is_card m.msg_type
    then group_card_error m.card_message
    else none

-- `androidReceiver` and `iosReceiver`.
pub record Receivers : Type 0 where
  pub android : List String
  pub ios : List String

abbrev pub add_receiver : Option PushInfo → Receivers → Receivers
add_receiver none r = r
add_receiver (some info) r =
    if info.is_ios && not (is_blank info.device_info)
    then record r { ios = r.ios ++ info.device_info ∷ [] }
    else if not (is_blank info.device_info)
    then record r { android = r.android ++ info.device_info ∷ [] }
    else r

abbrev nonempty : {A : Type 0} → List A → Bool
nonempty [] = false
nonempty (x ∷ xs) = true

module _ (e : Env) where
  fill_group_card : GroupMessage → M (Unit {0}) GroupMessage
  fill_group_card m s = elim (is_card m.msg_type) [
    | true ↦
        (do
          portrait ← ask e.text (get_portrait (card_owner m.card_message))
          nick_name ← ask e.text (get_brief_info (card_owner m.card_message))
          pure (record m { card_message = filled m.card_message (or_else portrait "") nick_name }))
          s
    | false ↦ pure m s
  ]

  -- The device of a member who is offline.
  device_of : (online : Bool) → ℕ → M (Unit {0}) (Option PushInfo)
  device_of true id = pure none
  device_of false id = ask e.push_info (get_push_info id)

  pub gather : List ℕ → Receivers → M (Unit {0}) Receivers
  unfolding device_of
  gather [] r = pure r
  gather (id ∷ ids) r = do
    online ← ask e.ok (user_online id)
    info ← device_of online id
    gather ids (add_receiver info r)

  -- The push to the members who are offline, the event that brings the message to the others, and the
  -- answer.
  deliver_group : GroupMessage → (client_time : ℕ) → Receivers → M (Unit {0}) (Unit {0})
  deliver_group m client_time receivers = do
    when (nonempty receivers.android || nonempty receivers.ios)
        (ask_group (push_all receivers.android receivers.ios))
    publish_group (chat_event m)
    answer (group_chat_ack m.receive_group_id m.srv_time_stamp client_time)

  -- Where redis does not give the members, the handler ends without a word.
  spread : GroupMessage → (client_time : ℕ) → Option (List HashItem) → M (Unit {0}) (Unit {0})
  unfolding gather deliver_group
  spread m client_time none = stop tt
  spread m client_time (some items) = do
    receivers ← gather (member_ids items) (record { android = []; ios = [] })
    deliver_group m client_time receivers

  store_and_spread : GroupMessage → (client_time : ℕ) → M (Unit {0}) (Unit {0})
  unfolding spread
  store_and_spread sent client_time = do
    when (not (e.marshal_group_chat sent)) (group_reject marshal_chat_failed)
    stored ← ask e.ok (group_call (store_group_chat sent.receive_group_id sent sent.srv_time_stamp))
    when (not stored) (group_reject chat_store_failed)
    items ← ask e.hash (group_call (get_all_members sent.receive_group_id))
    spread sent client_time items

  fill_and_store : GroupMessage → (client_time : ℕ) → M (Unit {0}) (Unit {0})
  unfolding fill_group_card store_and_spread
  fill_and_store signed client_time = do
    sent ← fill_group_card signed
    store_and_spread sent client_time

  -- The message whose sender and type are checked.
  sign_and_store : GroupMessage → (client_time : ℕ) → M (Unit {0}) (Unit {0})
  unfolding fill_and_store
  sign_and_store m client_time = do
    me ← gets (λ c. c.account_id)
    name ← gets (λ c. c.nick_name)
    now ← read_now e
    portrait ← ask e.text (get_portrait me)
    let signed = record m {
      sender_id = me;
      sender_name = name;
      srv_time_stamp = now;
      sender_head_portrait_url = or_else portrait "";
    }
    refuse (group_part_error signed)
    fill_and_store signed client_time

  check_group_chat : GroupMessage → M (Unit {0}) (Unit {0})
  check_group_chat m = do
    when (not (is_known m.msg_type)) (group_reject chat_msg_is_illegal)
    known ← ask (λ t c. is_some (e.chat_group t c)) (group_call (get_group_info m.receive_group_id))
    when (not known) (group_reject chat_msg_is_illegal)
    me ← gets (λ c. c.account_id)
    member ← is_group_member e m.receive_group_id me
    when (not member) (group_reject chat_sender_is_not_member)
    when (is_blank m.text_body) (group_reject chat_msg_is_illegal)

  -- The message as far as it was unmarshalled, and the client's time.
  pub c2s_group_chat : (parsed : Bool) → Option GroupMessage → (client_time : ℕ) → Session → Session
  unfolding check_group_chat sign_and_store
  c2s_group_chat false message client_time = run (group_reject unmarshal_chat)
  c2s_group_chat true none client_time = run (group_reject chat_msg_is_nil)
  c2s_group_chat true (some m) client_time = run do check_group_chat m; sign_and_store m client_time

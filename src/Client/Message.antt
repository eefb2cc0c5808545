-- ===== src/Client/Message.antt =====
-- The private messages of msg_struct, as far as msg-server/client/privateChat.go reads and writes them.
use instant_message.Prelude.{ℕ, String, Bool, true, false, Option}

-- The strings that the handler compares `MsgType` with; `unknown` is any other.
pub data MsgType : Type 0 where
  word pic voice file video card unknown : MsgType

pub record VoiceMessage : Type 0 where
  pub audio_url : String
  pub audio_second : ℕ

pub record FileMessage : Type 0 where
  pub file_url : String
  pub file_thumbnail : String

pub record VideoMessage : Type 0 where
  pub video_url : String
  pub video_thumbnail : String

pub record CardMessage : Type 0 where
  pub card_id : ℕ
  pub card_nick_name : String
  pub portrait : String

pub record ChatMessage : Type 0 where
  pub sender_id : ℕ
  pub receiver_id : ℕ
  pub sender_name : String
  pub sender_head_portrait_url : String
  pub sender_remark_name : String
  pub msg_type : MsgType
  pub text_body : String
  pub srv_time_stamp : ℕ
  pub with_draw : Bool
  pub voice_message : Option VoiceMessage
  pub file_message : Option FileMessage
  pub video_message : Option VideoMessage
  pub card_message : Option CardMessage

pub record PushInfo : Type 0 where
  pub is_ios : Bool
  pub device_info : String

abbrev pub is_blank : String → Bool
is_blank String.[] = true
is_blank (String.◌∷◌ c s) = false

abbrev pub is_voice : MsgType → Bool
is_voice voice = true
is_voice _ = false

abbrev pub is_file : MsgType → Bool
is_file file = true
is_file _ = false

abbrev pub is_video : MsgType → Bool
is_video video = true
is_video _ = false

abbrev pub is_card : MsgType → Bool
is_card card = true
is_card _ = false

-- `word`, `pic`, `voice`, `file`, `video` or `card`.
abbrev pub is_known : MsgType → Bool
is_known unknown = false
is_known _ = true

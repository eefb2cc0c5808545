-- ===== src/Client/Tests.antt =====
-- A user, a friend and environments to try the handlers on.
pub mod Friends
pub mod Messages
pub mod Groups
pub mod Weibos
pub mod Accounts
use instant_message.Prelude.{ℕ, Bool, ◌≡◌, refl, not, true, false, none, some, List, [], ◌∷◌}
use instant_message.Client.{Client, Contact}
use instant_message.Client.Message.{ChatMessage, word}
use instant_message.Client.GroupMessage.{absent}
use instant_message.Client.WeiboMessage.{missing}
use instant_message.Client.Requests.{FriendMsg}
use instant_message.Client.Session.{Call, Env, found, update_contact_list}
use instant_message.Client.Keyed.{IsValid}

-- Every call succeeds; there is no agent, no push and no stored message.
abbrev pub calm : Env
calm = record {
  ok = λ t c. true;
  affected = λ t c. 1;
  row = λ t c. found;
  text = λ t c. some "name";
  id = λ t c. none;
  members = λ t c. none;
  now = λ t. 1000;
  marshal = λ cs. some (1 ∷ []);
  marshal_chat = λ m. true;
  push_info = λ t c. none;
  chats = λ t c. none;
  brief_id = λ t c. 9;
  chat_group = λ t c. none;
  member = λ t c. none;
  hash = λ t c. none;
  hash_field = λ t c. absent;
  uid = λ t. 1;
  set_ids = λ t c. none;
  group_chats = λ t c. none;
  crc32_id = λ s a. 3;
  marshal_member = λ m. true;
  marshal_group_chat = λ m. true;
  marshal_urls = λ us. true;
  marshal_weibo = λ w. true;
  marshal_reply = λ r. true;
  marshal_device = λ d. true;
  json_brief = λ t. none;
  proto_brief = λ t. none;
  user_row = λ t c. none;
  post_brief = λ t c. none;
  back_sorted = λ ids. ids;
  weibo = λ t c. missing;
  weibo_row = λ t c. some none;
  posts = λ t c. [];
  replies = λ t c. some [];
}

abbrev pub is_update : Call → Bool
is_update (update_contact_list b id) = true
is_update _ = false

-- Mysql refuses the update of the contact list.
abbrev pub no_update : Env
no_update = record calm { ok = λ t c. not (is_update c) }

abbrev pub nine : Contact
nine = record { account_id = 9; remark_name = "Nine" }

-- The user 7, whose friend is 9.
abbrev pub seven : Client
seven = record {
  account_id = 7;
  nick_name = "Seven";
  user_name = "";
  head_portrait = "";
  last_msg_timestamp = 0;
  contact_list = [];
  black_list_bin = [];
  contacts = (9, nine) ∷ [];
  black_list = [];
  agent_info = record { agent_id = 0; agent_username = ""; agent_portrait_url = "" };
  members = [];
  chat_groups = [];
  chat_group_last_msg_timestamp = (3, 40) ∷ [];
}

pub seven-IsValid : IsValid seven
seven-IsValid = record { contacts_keyed = (refl, tt); black_list_keyed = tt }

-- A request of the user 5.
abbrev pub from_five : FriendMsg
from_five = record { sender_id = 5; receiver_id = 7; msg_timestamp = 100 }

abbrev pub to_five : FriendMsg
to_five = record { sender_id = 7; receiver_id = 5; msg_timestamp = 100 }

-- A message from 9 to 7.
abbrev pub hello : ChatMessage
hello = record {
  sender_id = 9;
  receiver_id = 7;
  sender_name = "";
  sender_head_portrait_url = "";
  sender_remark_name = "";
  msg_type = word;
  text_body = "hello";
  srv_time_stamp = 50;
  with_draw = false;
  voice_message = none;
  file_message = none;
  video_message = none;
  card_message = none;
}

-- A message to 9 that claims to come from 1.
abbrev pub greeting : ChatMessage
greeting = record hello { sender_id = 1; receiver_id = 9 }

-- The record that the user 7 asks for is 9's.
abbrev pub with_history : Env
with_history = record calm { chats = λ t c. some (some hello ∷ []) }

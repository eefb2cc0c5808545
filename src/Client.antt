-- ===== src/Client.antt =====
-- msg-server/client/client.go: the in-memory state of a logged-in user and the accessors of its
-- maps. The redis and mysql handles of the struct are the calls of Client/Session.antt; sockets and
-- channels are left to Net. Locks are left out: each accessor is one atomic step.
pub mod Message
pub mod GroupMessage
pub mod WeiboMessage
pub mod AccountMessage
pub mod Account
pub mod Session
pub mod Flows
pub mod Saving
pub mod Redis
pub mod BlackList
pub mod Deletion
pub mod Requests
pub mod Remarks
pub mod Keyed
pub mod Agents
pub mod Chat
pub mod History
pub mod Groups
pub mod Weibo
pub mod Receiving
pub mod Mirror
pub mod Dispatch
pub mod Tests
use instant_message.Prelude.{
  ℕ, String, Bool, Option, none, some, List, [], ◌∷◌, if◌then◌else◌, signed_ltb,
}
use instant_message.Prelude.GoMap.{GoMap, lookup, insert, remove, has_key, keys}

pub record Contact : Type 0 where
  pub account_id : ℕ
  pub remark_name : String

pub record AgentInfo : Type 0 where
  pub agent_id : ℕ
  pub agent_username : String
  pub agent_portrait_url : String

-- msg_struct.ChatGroup.
pub record ChatGroup : Type 0 where
  pub chat_group_id : ℕ
  pub creator : ℕ
  pub group_name : String
  pub pic : String

abbrev pub Bytes : Type 0
Bytes = List ℕ

-- `contact_list` and `black_list_bin` are the serialized fields of the row of the account.
pub record Client : Type 0 where
  pub account_id : ℕ
  pub nick_name : String
  pub user_name : String
  pub head_portrait : String
  pub last_msg_timestamp : ℕ
  pub contact_list : Bytes
  pub black_list_bin : Bytes
  pub contacts : GoMap Contact
  pub black_list : GoMap Contact
  pub agent_info : AgentInfo
  pub members : GoMap AgentInfo
  pub chat_groups : GoMap ChatGroup
  pub chat_group_last_msg_timestamp : GoMap ℕ

unfoldable pub is_friend : Client → ℕ → Bool
is_friend c id = has_key id c.contacts

unfoldable pub is_friends : Client → List ℕ → List ℕ
unfolding is_friend
is_friends c [] = []
is_friends c (id ∷ ids) = let rest = is_friends c ids in if is_friend c id then id ∷ rest else rest

unfoldable pub be_friend : ℕ → Client → Client
be_friend id c = record c {
  contacts = insert id (record { account_id = id; remark_name = "" }) c.contacts;
}

unfoldable pub be_not_friend : ℕ → Client → Client
be_not_friend id c = record c { contacts = remove id c.contacts }

unfoldable pub get_friend_ids : Client → List ℕ
get_friend_ids c = keys c.contacts

unfoldable pub is_black_list : Client → ℕ → Bool
is_black_list c id = has_key id c.black_list

abbrev pub remark_of : Option Contact → String
remark_of none = ""
remark_of (some contact) = contact.remark_name

unfoldable pub get_friend_remark_name : ℕ → Client → String
get_friend_remark_name id c = remark_of (lookup id c.contacts)

-- The contact is mutated through the pointer that the map holds, and no other pointer to it is kept.
abbrev pub renamed : Option Contact → ℕ → String → GoMap Contact → GoMap Contact
renamed none id name m = m
renamed (some contact) id name m = insert id (record contact { remark_name = name }) m

unfoldable pub set_friend_remark_name : ℕ → String → Client → Client
set_friend_remark_name id name c = record c {
  contacts = renamed (lookup id c.contacts) id name c.contacts;
}

unfoldable pub be_black_list : ℕ → Client → Client
unfolding get_friend_remark_name
be_black_list id c = record c { black_list = insert id contact c.black_list }
  where
    contact : Contact
    contact = record { account_id = id; remark_name = get_friend_remark_name id c }

unfoldable pub be_not_black_list : ℕ → Client → Client
be_not_black_list id c = record c { black_list = remove id c.black_list }

unfoldable pub get_black_list_ids : Client → List ℕ
get_black_list_ids c = keys c.black_list

unfoldable pub set_last_msg_timestamp : ℕ → Client → Client
set_last_msg_timestamp ts c = record c { last_msg_timestamp = ts }

-- The ids of the groups of `GetChatGroupIds`, and the group of `GetChatGroupInfo`.
unfoldable pub get_chat_group_ids : Client → List ℕ
get_chat_group_ids c = keys c.chat_groups

unfoldable pub get_chat_group_info : ℕ → Client → Option ChatGroup
get_chat_group_info id c = lookup id c.chat_groups

unfoldable pub add_chat_group : ChatGroup → Client → Client
add_chat_group group c = record c { chat_groups = insert group.chat_group_id group c.chat_groups }

unfoldable pub get_chat_group_last_msg_timestamp : ℕ → Client → Option ℕ
get_chat_group_last_msg_timestamp id c = lookup id c.chat_group_last_msg_timestamp

abbrev raised : Option ℕ → (id ts : ℕ) → GoMap ℕ → GoMap ℕ
raised none id ts m = m
raised (some v) id ts m = if signed_ltb v ts then insert id ts m else m

-- Of a group with no entry, and to a time stamp that is not later, nothing is set.
unfoldable pub set_chat_group_last_msg_timestamp : (id ts : ℕ) → Client → Client
set_chat_group_last_msg_timestamp id ts c = record c {
  chat_group_last_msg_timestamp =
      raised (lookup id c.chat_group_last_msg_timestamp) id ts c.chat_group_last_msg_timestamp;
}

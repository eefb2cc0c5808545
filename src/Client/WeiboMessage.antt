-- ===== src/Client/WeiboMessage.antt =====
-- The messages about weibos, the posts that friends show each other: what msg-server/client/weibo.go,
-- weiboCover.go and weiboAllowQuery.go read, send, queue, store and ask of redis and mysql. The dates of
-- rows are left out; of a brief record the id and the nick name are kept.
use instant_message.Prelude.{ℕ, String, Bool, Option, List}

-- msg_struct.Weibo; `url_bin` is the list of addresses that it serializes.
pub record Weibo : Type 0 where
  pub weibo_id : ℕ
  pub publisher_id : ℕ
  pub publisher_nick_name : String
  pub content_type : ℕ
  pub text : String
  pub url_bin : List String
  pub srv_timestamp : ℕ

-- msg_struct.ReplyWeibo.
pub record ReplyWeibo : Type 0 where
  pub weibo_id : ℕ
  pub weibo_publisher_id : ℕ
  pub commented_id : ℕ
  pub be_commented_id : ℕ
  pub be_commentator_id : ℕ
  pub commentator_id : ℕ
  pub comment_content : String
  pub comment_time_stamp : ℕ

pub record LikeWeibo : Type 0 where
  pub weibo_id : ℕ
  pub weibo_publisher_id : ℕ
  pub liker_id : ℕ

pub record BrowseWeibo : Type 0 where
  pub weibo : Weibo
  pub liker_id : List ℕ
  pub replay_weibo : List ReplyWeibo

-- The request to publish; `text_length` is the length of the text in bytes.
pub record PublishReq : Type 0 where
  pub content_type : ℕ
  pub text : String
  pub text_length : ℕ
  pub url : List String
  pub weibo_id : ℕ

-- models.Weibo.
pub record WeiboRow : Type 0 where
  pub account_id : ℕ
  pub weibo_id : ℕ
  pub msg_content : String
  pub thumbup_times : ℕ

-- A member "publisher:id" of the sorted set of posts.
pub record PostKey : Type 0 where
  pub publisher : ℕ
  pub post : ℕ

pub record BriefInfo : Type 0 where
  pub account_id : ℕ
  pub nick_name : String

-- GET and unmarshalling: `getWeiboRds` returns nil and no error for what is not unmarshalled.
pub data Fetched : Type 0 where
  missing garbled : Fetched
  stored : Weibo → Fetched

-- msg_id.MsgActionWeibo.
pub data Action : Type 0 where
  publish_action like_action cancel_like_action comment_action delete_comment_action : Action

-- msg_struct.FriendLookWeiboStrategy.
pub data Strategy : Type 0 where
  undefined half_year one_month three_days : Strategy

pub data WeiboError : Type 0 where
  unmarshal_publish content_is_illegal text_out_of_limit url_out_of_limit : WeiboError
  publish_internal : WeiboError
  unmarshal_delete delete_id_error delete_internal : WeiboError
  unmarshal_like like_id_error liker_is_not_friend like_internal : WeiboError
  unmarshal_cancel_like cancel_like_id_error cancel_like_internal : WeiboError
  unmarshal_reply reply_id_error commentor_is_not_friend comment_is_too_long : WeiboError
  reply_internal unmarshal_delete_reply delete_reply_id_error : WeiboError
  unmarshal_browse_someone unmarshal_set_cover cover_is_empty : WeiboError

-- The messages to the user's own terminal.
pub data WeiboReply : Type 0 where
  recv_publish_weibo : (weibo_id : ℕ) → WeiboReply
  recv_delete_weibo recv_like_weibo cancel_like_ack delete_reply_ack : WeiboReply
  recv_reply_weibo : (comment_id : ℕ) → WeiboReply
  browse_someone : List BrowseWeibo → Strategy → WeiboReply
  browse_all : List BrowseWeibo → WeiboReply
  set_cover_ack like_cover_ack : WeiboReply
  weibo_cover : Option String → (liked : Bool) → WeiboReply
  dont_look_list dont_look_ack forbidden_list forbidden_ack : List BriefInfo → WeiboReply
  stranger_allowed : Bool → WeiboReply
  allow_stranger_ack strategy_ack : WeiboReply
  look_strategy : (strategy : ℕ) → WeiboReply
  published : Weibo → WeiboReply
  liked : LikeWeibo → WeiboReply
  replied : ReplyWeibo → WeiboReply
  deleted : (friend weibo_id : ℕ) → WeiboReply

-- The messages to another user, through the queue.
pub data WeiboMq : Type 0 where
  mq_publish : Weibo → WeiboMq
  mq_like : LikeWeibo → WeiboMq
  mq_reply : ReplyWeibo → WeiboMq
  mq_delete : (friend weibo_id : ℕ) → WeiboMq

-- The calls of mysql, then those of redis. `crash` is no call: the handler reads a field of a nil pointer,
-- which nothing in `handleMsg` recovers from, and the process ends.
pub data WeiboCall : Type 0 where
  crash : WeiboCall
  insert_weibo : (account : ℕ) → Weibo → WeiboCall
  log_action : Action → (account weibo friend : ℕ) → WeiboCall
  select_weibo delete_weibo_row mark_replies mark_likes : (weibo : ℕ) → WeiboCall
  insert_weibo_deleted : WeiboRow → WeiboCall
  insert_weibo_like delete_weibo_like : (weibo liker : ℕ) → WeiboCall
  raise_thumbup lower_thumbup : (weibo : ℕ) → WeiboCall
  insert_weibo_reply : (publisher weibo : ℕ) → ReplyWeibo → WeiboCall
  mark_reply : (weibo comment : ℕ) → WeiboCall
  select_cover delete_cover : (account : ℕ) → WeiboCall
  insert_cover_log : (account : ℕ) → WeiboCall
  insert_cover : (account : ℕ) → String → WeiboCall
  raise_cover_thumbup : WeiboCall
  set_weibo : (owner : ℕ) → Weibo → WeiboCall
  get_weibo delete_weibo_string : (owner weibo : ℕ) → WeiboCall
  push_weibo_list remove_weibo_list add_weibo_set remove_weibo_set : (owner weibo : ℕ) → WeiboCall
  add_weibo_zset : (owner publisher weibo score : ℕ) → WeiboCall
  remove_weibo_zset : (owner publisher weibo : ℕ) → WeiboCall
  posts_after posts_before : (owner score : ℕ) → WeiboCall
  set_like_hash : (publisher weibo liker score : ℕ) → WeiboCall
  remove_like_hash add_like_set remove_like_set : (publisher weibo liker : ℕ) → WeiboCall
  get_likers get_readers : (publisher weibo : ℕ) → WeiboCall
  add_reply_set remove_reply_set : (publisher weibo replier : ℕ) → WeiboCall
  push_reply_list remove_reply : (publisher weibo : ℕ) → ReplyWeibo → WeiboCall
  get_replies : (publisher weibo : ℕ) → WeiboCall
  delete_like_set delete_like_hash delete_reply_set delete_reply_list :
      (owner weibo : ℕ) → WeiboCall
  new_comment_id : WeiboCall
  get_strategy delete_strategy : (owner : ℕ) → WeiboCall
  set_strategy : (owner strategy : ℕ) → WeiboCall
  set_cover : (owner : ℕ) → String → WeiboCall
  get_cover delete_cover_likers : (owner : ℕ) → WeiboCall

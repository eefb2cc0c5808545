-- ===== src/Client/Dispatch.antt =====
-- msg-server/client: the messages that a client is handed, by its terminal or by the queue, and the
-- handler that `registerLogicCall` gives each of them, one message after the other.
pub mod Invariant
use instant_message.Prelude.{ℕ, String, Bool, Option, List, [], ◌∷◌}
use instant_message.Client.Message.{ChatMessage}
use instant_message.Client.Session.{Env, Event, Session}
use instant_message.Client.Mirror.{mirror}
use instant_message.Client.GroupMessage.{CreateReq, JoinReq, AgreeReq, RefuseReq, GroupMessage}
use instant_message.Client.Groups.Creation.{c2s_create_chat_group}
use instant_message.Client.Groups.Joining.{
  c2s_req_join_chat_group, c2s_agree_join_chat_group, c2s_refuse_join_chat_group,
  c2s_chat_group_info,
}
use instant_message.Client.Groups.Invitation.{c2s_invite_join_chat_group}
use instant_message.Client.Groups.Leaving.{
  c2s_cancel_chat_group, c2s_un_chat_group, c2s_chat_group_kick,
}
use instant_message.Client.Groups.Talk.{c2s_group_chat}
use instant_message.Client.Groups.History.{
  c2s_chat_group_last_msg_time_stamp, c2s_get_offline_group_chat_msg, c2s_withdraw_group_message,
}
use instant_message.Client.Groups.Receiving.{
  NewGroup, mq_create_chat_group_received, mq_req_join_received, mq_manager_agree_received,
  agree_join_received, mq_refuse_received, mq_invite_received, mq_cancel_received, mq_un_received,
  mq_kick_received,
}
use instant_message.Client.WeiboMessage.{PublishReq, Weibo, LikeWeibo, ReplyWeibo}
use instant_message.Client.Weibo.Publishing.{c2s_publish_weibo, c2s_delete_weibo}
use instant_message.Client.Weibo.Liking.{c2s_like_weibo, c2s_cancel_like_weibo}
use instant_message.Client.Weibo.Replying.{c2s_reply_weibo, c2s_delete_reply_weibo}
use instant_message.Client.Weibo.Browsing.{c2s_browse_someone_weibo, c2s_browse_all_weibo}
use instant_message.Client.Weibo.Cover.{
  c2s_set_weibo_cover, c2s_like_friend_weibo_cover, c2s_get_weibo_cover,
}
use instant_message.Client.Weibo.Settings.{
  c2s_get_dont_look_friend_weibo_list, c2s_dont_look_friend_weibo,
  c2s_get_forbidden_friend_look_weibo_list, c2s_forbidden_friend_look_weibo,
  c2s_is_allow_stranger_look_weibo, c2s_allow_stranger_look_weibo,
  c2s_get_friend_look_weibo_strategy, c2s_friend_look_weibo_strategy,
}
use instant_message.Client.Weibo.Receiving.{
  mq_publish_weibo_received, mq_like_weibo_received, mq_reply_weibo_received,
  mq_delete_weibo_received,
}
use instant_message.Client.Account.{AccountRequest, handle_account}
use instant_message.Client.Account.Searching.{c2s_find_user}
use instant_message.Client.BlackList.{
  c2s_add_friend_black_list, c2s_move_out_friend_black_list, c2s_get_friend_black_list,
}
use instant_message.Client.Deletion.{c2s_delete_friend, c2s_confirm_delete_friend}
use instant_message.Client.Requests.{
  FriendMsg, c2s_add_friend, c2s_agree_become_friend, c2s_read_friend_req,
}
use instant_message.Client.Remarks.{c2s_set_friend_remark_name}
use instant_message.Client.Chat.{c2s_private_chat}
use instant_message.Client.History.{
  c2s_last_msg_timestamp, c2s_get_offline_private_chat_msg, c2s_withdraw_message, c2s_huan_xin_push,
}
use instant_message.Client.Receiving.{
  mq_private_chat_received, mq_add_friend_received, mq_agree_become_friend_received,
  mq_delete_friend_received,
}

-- The messages about chat groups. That of a granted request is filed under the id of the message to the
-- terminal, `s2c_agree_join`, so that the one that the queue brings has no handler.
pub data GroupRequest : Type 0 where
  create : (parsed : Bool) → CreateReq → GroupRequest
  req_join : (parsed : Bool) → JoinReq → GroupRequest
  agree_join : (parsed : Bool) → AgreeReq → GroupRequest
  refuse_join : (parsed : Bool) → RefuseReq → GroupRequest
  group_info cancel un : (parsed : Bool) (group : ℕ) → GroupRequest
  invite : (parsed : Bool) (group : ℕ) (friend_ids : List ℕ) → GroupRequest
  kick : (parsed : Bool) (group user : ℕ) → GroupRequest
  group_chat : (parsed : Bool) → Option GroupMessage → (client_time : ℕ) → GroupRequest
  group_timestamp : (parsed : Bool) (group reported : ℕ) → GroupRequest
  offline_group : (parsed : Bool) (group last msg_timestamp : ℕ) → GroupRequest
  withdraw_group : (parsed : Bool) (ts group : ℕ) → GroupRequest
  mq_create : (parsed : Bool) → Option NewGroup → GroupRequest
  mq_req_join : (parsed : Bool) → JoinReq → (nick_name : String) (req_uid : ℕ) → GroupRequest
  mq_manager_agree mq_cancel : (parsed : Bool) (group user : ℕ) (nick_name : String) → GroupRequest
  s2c_agree_join mq_un : (parsed : Bool) (group : ℕ) → GroupRequest
  mq_refuse : (parsed : Bool) → RefuseReq → GroupRequest
  mq_invite : (parsed : Bool) (group inviter invitee : ℕ) → GroupRequest
  mq_kick : (parsed : Bool) (group user : ℕ) → GroupRequest

-- The messages about posts. A handler that crashes ends the process; what would follow is not excluded here.
pub data WeiboRequest : Type 0 where
  publish_weibo : (parsed : Bool) → PublishReq → WeiboRequest
  delete_weibo : (parsed : Bool) (weibo : ℕ) → WeiboRequest
  like_weibo cancel_like_weibo : (parsed : Bool) (weibo publisher : ℕ) → WeiboRequest
  reply_weibo : (parsed : Bool) (length : ℕ) → Option ReplyWeibo → WeiboRequest
  delete_reply_weibo : (parsed : Bool) (weibo publisher comment : ℕ) → WeiboRequest
  browse_someone_weibo : (parsed : Bool) (friend last : ℕ) → WeiboRequest
  browse_all_weibo : (parsed : Bool) (last : ℕ) → WeiboRequest
  set_weibo_cover : (parsed : Bool) (pic : String) → WeiboRequest
  like_friend_weibo_cover get_weibo_cover : (parsed : Bool) (user : ℕ) → WeiboRequest
  dont_look_list forbidden_list is_allow_stranger get_strategy : (parsed : Bool) → WeiboRequest
  dont_look forbid_look : (parsed : Bool) (friend_ids : List ℕ) (put : Bool) → WeiboRequest
  allow_stranger : (parsed : Bool) (allow : Bool) → WeiboRequest
  set_strategy : (parsed : Bool) (strategy : ℕ) → WeiboRequest
  mq_publish_weibo : (parsed : Bool) → Option Weibo → WeiboRequest
  mq_like_weibo : (parsed : Bool) → Option LikeWeibo → WeiboRequest
  mq_reply_weibo : (parsed : Bool) → Option ReplyWeibo → WeiboRequest
  mq_delete_weibo : (parsed : Bool) (friend weibo : ℕ) → WeiboRequest

-- A message, with whether it was unmarshalled and what its handler reads of it, or an event of the
-- account's other terminal, whose handler is run whole between two messages.
pub data Request : Type 0 where
  add_friend agree_become_friend read_friend_req : (parsed : Bool) → FriendMsg → Request
  delete_friend confirm_delete_friend : (parsed : Bool) (friend : ℕ) → Request
  add_black_list move_out_black_list : (parsed : Bool) (friend : ℕ) → Request
  get_black_list get_offline : (parsed : Bool) → Request
  set_remark_name : (parsed : Bool) (friend : ℕ) (name : String) → Request
  private_chat : (parsed : Bool) → Option ChatMessage → (client_time : ℕ) → Request
  last_msg_timestamp : (long_enough parsed : Bool) (reported : ℕ) → Request
  withdraw_message : (parsed : Bool) (ts receiver : ℕ) → Request
  huan_xin_push : (parsed : Bool) (friend : ℕ) → Request
  mq_private_chat : (parsed : Bool) → Option ChatMessage → Request
  mq_add_friend mq_agree_become_friend :
      (parsed : Bool) → Option FriendMsg → (nick_name : String) → Request
  mq_delete_friend : (parsed : Bool) (friend : ℕ) → Request
  other_terminal : Event → Request
  group_request : GroupRequest → Request
  weibo_request : WeiboRequest → Request
  account_request : AccountRequest → Request
  find_user : (parsed : Bool) (key : String) → Request

module _ (e : Env) where
  unfoldable pub handle_group : GroupRequest → Session → Session
  handle_group (create p r) = c2s_create_chat_group e p r
  handle_group (req_join p r) = c2s_req_join_chat_group e p r
  handle_group (agree_join p r) = c2s_agree_join_chat_group e p r
  handle_group (refuse_join p r) = c2s_refuse_join_chat_group e p r
  handle_group (group_info p g) = c2s_chat_group_info e p g
  handle_group (invite p g ids) = c2s_invite_join_chat_group e g p ids
  handle_group (cancel p g) = c2s_cancel_chat_group e p g
  handle_group (un p g) = c2s_un_chat_group e p g
  handle_group (kick p g u) = c2s_chat_group_kick e p g u
  handle_group (group_chat p m t) = c2s_group_chat e p m t
  handle_group (group_timestamp p g ts) = c2s_chat_group_last_msg_time_stamp e p g ts
  handle_group (offline_group p g last ts) = c2s_get_offline_group_chat_msg e p g last ts
  handle_group (withdraw_group p ts g) = c2s_withdraw_group_message e p ts g
  handle_group (mq_create p g) = mq_create_chat_group_received p g
  handle_group (mq_req_join p r n uid) = mq_req_join_received p r n uid
  handle_group (mq_manager_agree p g u n) = mq_manager_agree_received p g u n
  handle_group (s2c_agree_join p g) = agree_join_received p g
  handle_group (mq_refuse p r) = mq_refuse_received p r
  handle_group (mq_invite p g i u) = mq_invite_received p g i u
  handle_group (mq_cancel p g u n) = mq_cancel_received p g u n
  handle_group (mq_un p g) = mq_un_received p g
  handle_group (mq_kick p g u) = mq_kick_received p g u

  unfoldable pub handle_weibo : WeiboRequest → Session → Session
  handle_weibo (publish_weibo p r) = c2s_publish_weibo e p r
  handle_weibo (delete_weibo p w) = c2s_delete_weibo e p w
  handle_weibo (like_weibo p w f) = c2s_like_weibo e p w f
  handle_weibo (cancel_like_weibo p w f) = c2s_cancel_like_weibo e p w f
  handle_weibo (reply_weibo p l r) = c2s_reply_weibo e p l r
  handle_weibo (delete_reply_weibo p w f r) = c2s_delete_reply_weibo e p w f r
  handle_weibo (browse_someone_weibo p f last) = c2s_browse_someone_weibo e p f last
  handle_weibo (browse_all_weibo p last) = c2s_browse_all_weibo e p last
  handle_weibo (set_weibo_cover p pic) = c2s_set_weibo_cover e p pic
  handle_weibo (like_friend_weibo_cover p f) = c2s_like_friend_weibo_cover e p f
  handle_weibo (get_weibo_cover p f) = c2s_get_weibo_cover e p f
  handle_weibo (dont_look_list p) = c2s_get_dont_look_friend_weibo_list e p
  handle_weibo (forbidden_list p) = c2s_get_forbidden_friend_look_weibo_list e p
  handle_weibo (is_allow_stranger p) = c2s_is_allow_stranger_look_weibo e p
  handle_weibo (get_strategy p) = c2s_get_friend_look_weibo_strategy e p
  handle_weibo (dont_look p ids put) = c2s_dont_look_friend_weibo e p ids put
  handle_weibo (forbid_look p ids put) = c2s_forbidden_friend_look_weibo e p ids put
  handle_weibo (allow_stranger p allow) = c2s_allow_stranger_look_weibo e p allow
  handle_weibo (set_strategy p n) = c2s_friend_look_weibo_strategy e p n
  handle_weibo (mq_publish_weibo p w) = mq_publish_weibo_received e p w
  handle_weibo (mq_like_weibo p l) = mq_like_weibo_received e p l
  handle_weibo (mq_reply_weibo p r) = mq_reply_weibo_received e p r
  handle_weibo (mq_delete_weibo p f w) = mq_delete_weibo_received e p f w

  unfoldable pub handle : Request → Session → Session
  unfolding handle_group handle_weibo handle_account
  handle (add_friend p r) = c2s_add_friend e p r
  handle (agree_become_friend p r) = c2s_agree_become_friend e p r
  handle (read_friend_req p r) = c2s_read_friend_req e p r.sender_id
  handle (delete_friend p f) = c2s_delete_friend e p f
  handle (confirm_delete_friend p f) = c2s_confirm_delete_friend e p f
  handle (add_black_list p f) = c2s_add_friend_black_list e p f
  handle (move_out_black_list p f) = c2s_move_out_friend_black_list e p f
  handle (get_black_list p) = c2s_get_friend_black_list e p
  handle (get_offline p) = c2s_get_offline_private_chat_msg e p
  handle (set_remark_name p f n) = c2s_set_friend_remark_name e p f n
  handle (private_chat p m t) = c2s_private_chat e p m t
  handle (last_msg_timestamp l p ts) = c2s_last_msg_timestamp e l p ts
  handle (withdraw_message p ts r) = c2s_withdraw_message e p ts r
  handle (huan_xin_push p f) = c2s_huan_xin_push e p f
  handle (mq_private_chat p m) = mq_private_chat_received e p m
  handle (mq_add_friend p r n) = mq_add_friend_received e p r n
  handle (mq_agree_become_friend p r n) = mq_agree_become_friend_received e p r n
  handle (mq_delete_friend p f) = mq_delete_friend_received e p f
  handle (other_terminal event) = mirror e event
  handle (group_request r) = handle_group r
  handle (weibo_request r) = handle_weibo r
  handle (account_request r) = handle_account e r
  handle (find_user p key) = c2s_find_user e p key

  -- The messages of `chanRecvMsg` and the events of the other terminal, in order.
  unfoldable pub serve : List Request → Session → Session
  unfolding handle
  serve [] s = s
  serve (r ∷ rs) s = serve rs (handle r s)

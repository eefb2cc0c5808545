-- ===== src/Client/Dispatch/Invariant.antt =====
-- What every sequence of messages keeps of a client.
use instant_message.Prelude.{◌≡◌, List, [], ◌∷◌, subst, sym}
use instant_message.Client.{Client}
use instant_message.Client.Session.{Env, Session}
use instant_message.Client.Keyed.{IsValid}
use instant_message.Client.BlackList.Keeps.{
  add_black_list-IsValid, move_out_black_list-IsValid, get_friend_black_list-IsValid,
}
use instant_message.Client.Deletion.Keeps.{delete_friend-IsValid, confirm_delete_friend-IsValid}
use instant_message.Client.Requests.Keeps.{
  add_friend-IsValid, read_friend_req-IsValid, agree_become_friend-IsValid,
}
use instant_message.Client.Remarks.Keeps.{set_remark-IsValid}
use instant_message.Client.Chat.Keeps.{private_chat-IsValid}
use instant_message.Client.History.Keeps.{
  last_msg_timestamp-IsValid, get_offline-client, withdraw-client, huan_xin-client,
}
use instant_message.Client.Receiving.Keeps.{
  private_chat_received-IsValid, add_friend_received-IsValid, agree_become_friend_received-IsValid,
  delete_friend_received-IsValid,
}
use instant_message.Client.Mirror.Keeps.{mirror-IsValid}
use instant_message.Client.Dispatch.{
  Request, handle, serve, add_friend, agree_become_friend, read_friend_req, delete_friend,
  confirm_delete_friend, add_black_list, move_out_black_list, get_black_list, get_offline,
  set_remark_name, private_chat, last_msg_timestamp, withdraw_message, huan_xin_push,
  mq_private_chat, mq_add_friend, mq_agree_become_friend, mq_delete_friend, other_terminal,
  group_request, GroupRequest, handle_group, create, req_join, agree_join, refuse_join, group_info,
  invite, cancel, un, kick, group_chat, group_timestamp, offline_group, withdraw_group, mq_create,
  mq_req_join, mq_manager_agree, s2c_agree_join, mq_refuse, mq_invite, mq_cancel, mq_un, mq_kick,
  WeiboRequest, handle_weibo, weibo_request, account_request, find_user, publish_weibo,
  delete_weibo, like_weibo, cancel_like_weibo, reply_weibo, delete_reply_weibo,
  browse_someone_weibo, browse_all_weibo, set_weibo_cover, like_friend_weibo_cover, get_weibo_cover,
  dont_look_list, forbidden_list, is_allow_stranger, get_strategy, dont_look, forbid_look,
  allow_stranger, set_strategy, mq_publish_weibo, mq_like_weibo, mq_reply_weibo, mq_delete_weibo,
}
use instant_message.Client.Account.Keeps.{handle_account-IsValid}
use instant_message.Client.Account.Searching.Keeps.{find_user-client}
use instant_message.Client.Weibo.Keeps.{
  publish_weibo-client, delete_weibo-client, like_weibo-client, cancel_like-client,
  reply_weibo-client, delete_reply-client, set_cover-client, like_cover-client, get_cover-client,
  publish_received-client, like_received-client, reply_received-client, delete_received-client,
}
use instant_message.Client.Weibo.Settings.Keeps.{
  dont_look_list-client, forbidden_list-client, dont_look-client, forbidden-client,
  is_allow_stranger-client, allow_stranger-client, get_strategy-client, set_strategy-client,
}
use instant_message.Client.Weibo.Browsing.Keeps.{browse_all-client, browse_someone-client}
use instant_message.Client.Groups.Creation.Keeps.{create-client}
use instant_message.Client.Groups.Joining.Keeps.{
  req_join-client, agree_join-client, refuse_join-client, chat_group_info-client,
}
use instant_message.Client.Groups.Invitation.Keeps.{invite-client}
use instant_message.Client.Groups.Leaving.Keeps.{cancel-client, un-client, kick-client}
use instant_message.Client.Groups.Talk.Keeps.{group_chat-client}
use instant_message.Client.Groups.History.Keeps.{
  timestamp-IsValid, offline_group-client, withdraw_group-client,
}
use instant_message.Client.Groups.Receiving.Keeps.{
  create_received-client, req_join_received-client, refuse_received-client,
  manager_agree_received-client, agree_join_received-client, invite_received-client,
  cancel_received-client, un_received-client, kick_received-client,
}

same : {c d : Client} → d ≡ c → IsValid c → IsValid d
same p v = subst IsValid (sym p) v

module _ (e : Env) where
  handle_group-IsValid :
      (r : GroupRequest) (s : Session) → IsValid s.client → IsValid (handle_group e r s).client
  unfolding handle_group
  handle_group-IsValid (create p r) s v = same (create-client e p r s) v
  handle_group-IsValid (req_join p r) s v = same (req_join-client e p s r) v
  handle_group-IsValid (agree_join p r) s v = same (agree_join-client e p s r) v
  handle_group-IsValid (refuse_join p r) s v = same (refuse_join-client e p s r) v
  handle_group-IsValid (group_info p g) s v = same (chat_group_info-client e p g s) v
  handle_group-IsValid (invite p g ids) s v = same (invite-client e g p ids s) v
  handle_group-IsValid (cancel p g) s v = same (cancel-client e p g s) v
  handle_group-IsValid (un p g) s v = same (un-client e p g s) v
  handle_group-IsValid (kick p g u) s v = same (kick-client e p g s u) v
  handle_group-IsValid (group_chat p m t) s v = same (group_chat-client e p m t s) v
  handle_group-IsValid (group_timestamp p g ts) s v = timestamp-IsValid e p g s ts v
  handle_group-IsValid (offline_group p g last ts) s v =
      same (offline_group-client e p g s last ts) v
  handle_group-IsValid (withdraw_group p ts g) s v = same (withdraw_group-client e p g s ts) v
  handle_group-IsValid (mq_create p g) s v = same (create_received-client p s g) v
  handle_group-IsValid (mq_req_join p r n uid) s v = same (req_join_received-client p s r n uid) v
  handle_group-IsValid (mq_manager_agree p g u n) s v =
      same (manager_agree_received-client p s g u n) v
  handle_group-IsValid (s2c_agree_join p g) s v = same (agree_join_received-client p s g 0) v
  handle_group-IsValid (mq_refuse p r) s v = same (refuse_received-client p s r) v
  handle_group-IsValid (mq_invite p g i u) s v = same (invite_received-client p s g i u) v
  handle_group-IsValid (mq_cancel p g u n) s v = same (cancel_received-client p s g u n) v
  handle_group-IsValid (mq_un p g) s v = same (un_received-client p s g 0) v
  handle_group-IsValid (mq_kick p g u) s v = same (kick_received-client p s g u) v

  weibo-client : (r : WeiboRequest) (s : Session) → (handle_weibo e r s).client ≡ s.client
  unfolding handle_weibo
  weibo-client (publish_weibo p r) s = publish_weibo-client e p s r
  weibo-client (delete_weibo p w) s = delete_weibo-client e p s w
  weibo-client (like_weibo p w f) s = like_weibo-client e p s w f
  weibo-client (cancel_like_weibo p w f) s = cancel_like-client e p s w f
  weibo-client (reply_weibo p l r) s = reply_weibo-client e p s l r
  weibo-client (delete_reply_weibo p w f r) s = delete_reply-client e p s w f r
  weibo-client (browse_someone_weibo p f last) s = browse_someone-client e s f last p
  weibo-client (browse_all_weibo p last) s = browse_all-client e s last p
  weibo-client (set_weibo_cover p pic) s = set_cover-client e p s pic
  weibo-client (like_friend_weibo_cover p f) s = like_cover-client e p s f
  weibo-client (get_weibo_cover p f) s = get_cover-client e p s f
  weibo-client (dont_look_list p) s = dont_look_list-client e s p
  weibo-client (forbidden_list p) s = forbidden_list-client e s p
  weibo-client (is_allow_stranger p) s = is_allow_stranger-client e s p
  weibo-client (get_strategy p) s = get_strategy-client e s p
  weibo-client (dont_look p ids put) s = dont_look-client e s ids put p
  weibo-client (forbid_look p ids put) s = forbidden-client e s ids put p
  weibo-client (allow_stranger p allow) s = allow_stranger-client e s p allow
  weibo-client (set_strategy p n) s = set_strategy-client e s p n
  weibo-client (mq_publish_weibo p w) s = publish_received-client e p s w
  weibo-client (mq_like_weibo p l) s = like_received-client e p s l
  weibo-client (mq_reply_weibo p r) s = reply_received-client e p s r
  weibo-client (mq_delete_weibo p f w) s = delete_received-client e p s f w

  handle-IsValid : (r : Request) (s : Session) → IsValid s.client → IsValid (handle e r s).client
  unfolding handle
  handle-IsValid (add_friend p r) s v = add_friend-IsValid e p r s v
  handle-IsValid (agree_become_friend p r) s v = agree_become_friend-IsValid e p r s v
  handle-IsValid (read_friend_req p r) s v = read_friend_req-IsValid e p r s v
  handle-IsValid (delete_friend p f) s v = delete_friend-IsValid e p f s v
  handle-IsValid (confirm_delete_friend p f) s v = confirm_delete_friend-IsValid e p f s v
  handle-IsValid (add_black_list p f) s v = add_black_list-IsValid e p f s v
  handle-IsValid (move_out_black_list p f) s v = move_out_black_list-IsValid e p f s v
  handle-IsValid (get_black_list p) s v = get_friend_black_list-IsValid e p 0 s v
  handle-IsValid (get_offline p) s v = same (get_offline-client e p s) v
  handle-IsValid (set_remark_name p f n) s v = set_remark-IsValid e p f n s v
  handle-IsValid (private_chat p m t) s v = private_chat-IsValid e p m t s v
  handle-IsValid (last_msg_timestamp l p ts) s v = last_msg_timestamp-IsValid e p s l ts v
  handle-IsValid (withdraw_message p ts r) s v = same (withdraw-client e p s ts r) v
  handle-IsValid (huan_xin_push p f) s v = same (huan_xin-client e p s f) v
  handle-IsValid (mq_private_chat p m) s v = private_chat_received-IsValid e p m s v
  handle-IsValid (mq_add_friend p r n) s v = add_friend_received-IsValid e n s v p r
  handle-IsValid (mq_agree_become_friend p r n) s v =
      agree_become_friend_received-IsValid e n s v p r
  handle-IsValid (mq_delete_friend p f) s v = delete_friend_received-IsValid e p s v f
  handle-IsValid (other_terminal event) s v = mirror-IsValid e event s v
  handle-IsValid (group_request r) s v = handle_group-IsValid r s v
  handle-IsValid (weibo_request r) s v = same (weibo-client r s) v
  handle-IsValid (account_request r) s v = handle_account-IsValid e r s v
  handle-IsValid (find_user p key) s v = same (find_user-client e p key s) v

  -- Whatever messages and events of its other terminal a client is handed, one after the other, and
  -- whatever redis, mysql and the queue answer, each contact and each entry of the black list stays
  -- stored under its own account id.
  pub serve-IsValid :
      (rs : List Request) (s : Session) → IsValid s.client → IsValid (serve e rs s).client
  unfolding serve
  serve-IsValid [] s v = v
  serve-IsValid (r ∷ rs) s v = serve-IsValid rs (handle e r s) (handle-IsValid r s v)

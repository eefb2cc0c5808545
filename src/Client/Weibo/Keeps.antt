-- ===== src/Client/Weibo/Keeps.antt =====
-- The handlers of weibo.go, weiboCover.go and weiboAllowQuery.go, and those of MQMsg.go about posts, leave the
-- client as it was.
use instant_message.Prelude.{ℕ, ◌≡◌, String, Bool, Option, arith}
use instant_message.Client.WeiboMessage.{Weibo, LikeWeibo, ReplyWeibo, PublishReq}
use instant_message.Client.Session.{Env, Session}
use instant_message.Client.Weibo.Publishing.{c2s_publish_weibo, c2s_delete_weibo}
use instant_message.Client.Weibo.Liking.{c2s_like_weibo, c2s_cancel_like_weibo}
use instant_message.Client.Weibo.Replying.{c2s_reply_weibo, c2s_delete_reply_weibo}
use instant_message.Client.Weibo.Cover.{
  c2s_set_weibo_cover, c2s_like_friend_weibo_cover, c2s_get_weibo_cover,
}
use instant_message.Client.Weibo.Receiving.{
  mq_publish_weibo_received, mq_like_weibo_received, mq_reply_weibo_received,
  mq_delete_weibo_received,
}

module _ (e : Env) (parsed : Bool) (s : Session) where
  pub publish_weibo-client :
      (req : PublishReq) → (c2s_publish_weibo e parsed req s).client ≡ s.client
  unfolding c2s_publish_weibo
  publish_weibo-client req = ground arith

  pub delete_weibo-client : (id : ℕ) → (c2s_delete_weibo e parsed id s).client ≡ s.client
  unfolding c2s_delete_weibo
  delete_weibo-client id = ground arith

  pub like_weibo-client : (id named : ℕ) → (c2s_like_weibo e parsed id named s).client ≡ s.client
  unfolding c2s_like_weibo
  like_weibo-client id named = ground arith

  pub cancel_like-client :
      (id named : ℕ) → (c2s_cancel_like_weibo e parsed id named s).client ≡ s.client
  unfolding c2s_cancel_like_weibo
  cancel_like-client id named = ground arith

  pub reply_weibo-client :
      (length : ℕ) (body : Option ReplyWeibo)
      → (c2s_reply_weibo e parsed length body s).client ≡ s.client
  unfolding c2s_reply_weibo
  reply_weibo-client length body = ground arith

  pub delete_reply-client :
      (id publisher comment : ℕ)
      → (c2s_delete_reply_weibo e parsed id publisher comment s).client ≡ s.client
  unfolding c2s_delete_reply_weibo
  delete_reply-client id publisher comment = ground arith

  pub set_cover-client : (pic : String) → (c2s_set_weibo_cover e parsed pic s).client ≡ s.client
  unfolding c2s_set_weibo_cover
  set_cover-client pic = ground arith

  pub like_cover-client :
      (friend : ℕ) → (c2s_like_friend_weibo_cover e parsed friend s).client ≡ s.client
  unfolding c2s_like_friend_weibo_cover
  like_cover-client friend = ground arith

  pub get_cover-client : (user : ℕ) → (c2s_get_weibo_cover e parsed user s).client ≡ s.client
  unfolding c2s_get_weibo_cover
  get_cover-client user = ground arith

  pub publish_received-client :
      (body : Option Weibo) → (mq_publish_weibo_received e parsed body s).client ≡ s.client
  unfolding mq_publish_weibo_received
  publish_received-client body = ground arith

  pub like_received-client :
      (body : Option LikeWeibo) → (mq_like_weibo_received e parsed body s).client ≡ s.client
  unfolding mq_like_weibo_received
  like_received-client body = ground arith

  pub reply_received-client :
      (body : Option ReplyWeibo) → (mq_reply_weibo_received e parsed body s).client ≡ s.client
  unfolding mq_reply_weibo_received
  reply_received-client body = ground arith

  pub delete_received-client :
      (friend id : ℕ) → (mq_delete_weibo_received e parsed friend id s).client ≡ s.client
  unfolding mq_delete_weibo_received
  delete_received-client friend id = ground arith

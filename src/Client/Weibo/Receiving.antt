-- ===== src/Client/Weibo/Receiving.antt =====
-- msg-server/client/MQMsg.go: the messages of other users about posts that the queue brings.
pub mod Shown
use instant_message.Prelude.{ℕ, Bool, true, false, not, ◌&&◌, ◌==◌, Option, none, some}
use instant_message.Client.{is_friend, is_black_list}
use instant_message.Client.WeiboMessage.{
  Weibo, LikeWeibo, ReplyWeibo, published, liked, replied, deleted,
}
use instant_message.Client.Session.{
  Env, Session, M, ◌>>=◌, ◌>>◌, pure, stop, when, gets, ask, run, is_set_member, friend_set,
  black_list_set,
}
use instant_message.Client.Weibo.{weibo_answer, crashed}
use instant_message.Client.Weibo.Settings.{does_look_friend_weibo, does_allow_friend_look}

module _ (e : Env) where
  -- A query that ends the handler where redis fails.
  abbrev asked_in : (ok : Bool) (num : ℕ) → M (Unit {0}) Bool
  asked_in false num = stop tt
  asked_in true num = pure (num == 1)

  abbrev pub refuse_unlisted : (other : ℕ) (me : ℕ) → M (Unit {0}) (Unit {0})
  refuse_unlisted other me = do
    (ok, num) ← ask (λ t c. (e.ok t c, e.affected t c)) (is_set_member friend_set other me)
    friend ← asked_in ok num
    when (not friend) (stop tt)

  -- `IsSomeoneInOtherBlackList`: whether `someone` is on the black list of `other`.
  abbrev pub refuse_listed : (someone other : ℕ) → M (Unit {0}) (Unit {0})
  refuse_listed someone other = do
    (ok, num) ← ask (λ t c. (e.ok t c, e.affected t c)) (is_set_member black_list_set other someone)
    listed ← asked_in ok num
    when listed (stop tt)

  abbrev pub refuse_unlooked : (looker friend : ℕ) → M (Unit {0}) (Unit {0})
  refuse_unlooked looker friend = do
    looks ← does_look_friend_weibo e looker friend
    when (not looks) (stop tt)

  abbrev pub refuse_forbidden : (publisher looker : ℕ) → M (Unit {0}) (Unit {0})
  refuse_forbidden publisher looker = do
    allowed ← does_allow_friend_look e publisher looker
    when (not allowed) (stop tt)

  publish_received : Weibo → M (Unit {0}) (Unit {0})
  publish_received w = do
    me ← gets (λ c. c.account_id)
    friend ← gets (λ c. is_friend c w.publisher_id)
    when (not friend) (stop tt)
    refuse_unlisted w.publisher_id me
    refuse_listed w.publisher_id me
    refuse_listed me w.publisher_id
    refuse_unlooked me w.publisher_id
    refuse_forbidden w.publisher_id me
    weibo_answer (published w)

  abbrev on_message :
      {A : Type 0}
      → (parsed : Bool) → Option A
      → (A → M (Unit {0}) (Unit {0}))
      → M (Unit {0}) (Unit {0})
  on_message false body f = stop tt
  on_message true none f = crashed tt
  on_message true (some a) f = f a

  unfoldable pub mq_publish_weibo_received : (parsed : Bool) → Option Weibo → Session → Session
  unfolding publish_received
  mq_publish_weibo_received parsed body = run (on_message parsed body publish_received)

  like_received : LikeWeibo → M (Unit {0}) (Unit {0})
  like_received l = do
    me ← gets (λ c. c.account_id)
    friend ← gets (λ c. is_friend c l.liker_id)
    when (not friend) (stop tt)
    black ← gets (λ c. is_black_list c l.liker_id)
    when black (stop tt)
    refuse_listed l.liker_id me
    refuse_unlooked me l.liker_id
    refuse_forbidden l.liker_id me
    weibo_answer (liked l)

  unfoldable pub mq_like_weibo_received : (parsed : Bool) → Option LikeWeibo → Session → Session
  unfolding like_received
  mq_like_weibo_received parsed body = run (on_message parsed body like_received)

  -- The commentator, not the user, is the one who must look.
  reply_received : ReplyWeibo → M (Unit {0}) (Unit {0})
  reply_received r = do
    me ← gets (λ c. c.account_id)
    friend ← gets (λ c. is_friend c r.commentator_id)
    when (not friend) (stop tt)
    answered ← gets (λ c. is_friend c r.be_commentator_id)
    when (not (r.be_commentator_id == me) && not answered) (stop tt)
    black ← gets (λ c. is_black_list c r.commentator_id)
    when black (stop tt)
    black_answered ← gets (λ c. is_black_list c r.be_commentator_id)
    when black_answered (stop tt)
    refuse_unlooked r.commentator_id me
    refuse_forbidden r.be_commentator_id me
    weibo_answer (replied r)

  unfoldable pub mq_reply_weibo_received : (parsed : Bool) → Option ReplyWeibo → Session → Session
  unfolding reply_received
  mq_reply_weibo_received parsed body = run (on_message parsed body reply_received)

  -- The black list of the friend is asked twice, that of the user never.
  unfoldable pub mq_delete_weibo_received : (parsed : Bool) → (friend weibo : ℕ) → Session → Session
  mq_delete_weibo_received parsed friend id = run do
    when (not parsed) (stop tt)
    me ← gets (λ c. c.account_id)
    near ← gets (λ c. is_friend c friend)
    when (not near) (stop tt)
    refuse_unlisted friend me
    refuse_listed me friend
    refuse_listed me friend
    refuse_unlooked me friend
    refuse_unlooked friend me
    weibo_answer (deleted friend id)

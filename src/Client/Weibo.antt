-- ===== src/Client/Weibo.antt =====
-- msg-server/client/weibo.go: what its handlers share. A handler takes whether the message was unmarshalled,
-- and what it reads of the message.
pub mod Publishing
pub mod Liking
pub mod Replying
pub mod Settings
pub mod Cover
pub mod Browsing
pub mod Receiving
pub mod Keeps
pub mod Settling
use instant_message.Prelude.{
  ℕ, Bool, true, false, not, ◌&&◌, ◌||◌, Option, none, some, List, [], ◌∷◌, ◌==◌, if◌then◌else◌,
}
use instant_message.Client.{Client, is_friend}
use instant_message.Client.WeiboMessage.{
  Weibo, WeiboRow, ReplyWeibo, Fetched, WeiboCall, WeiboError, WeiboReply, WeiboMq, crash,
  get_weibo, get_replies, get_readers,
}
use instant_message.Client.Session.{
  Call, Env, M, done, ◌>>=◌, ◌>>◌, pure, stop, when, gets, call, ask, reject, scoped, send, mq,
  weibo_call, weibo_error, weibo_reply, mq_weibo, tx_begin, tx_commit, tx_rollback, tx_close,
}

abbrev pub weibo_reject : {A : Type 0} → WeiboError → M (Unit {0}) A
weibo_reject code = reject (weibo_error code) 0

abbrev pub weibo_answer : {R : Type 0} → WeiboReply → M R (Unit {0})
weibo_answer r = call (send (weibo_reply r))

-- A nil pointer is read: the handler goes no further.
abbrev pub crashed : {R A : Type 0} → R → M R A
crashed r = call (weibo_call crash) >>= λ _. stop r

-- A call whose error the function returns at once.
abbrev pub must : Env → WeiboCall → M Bool (Unit {0})
must e c = do ok ← ask e.ok (weibo_call c); when (not ok) (stop false)

-- How a function of the database ends: `swallowed` sets `errCode` and returns no error.
pub data TxEnd : Type 0 where
  fine refused swallowed : TxEnd

abbrev pub must_tx : Env → WeiboCall → M TxEnd (Unit {0})
must_tx e c = do ok ← ask e.ok (weibo_call c); when (not ok) (stop refused)

abbrev pub committed : Bool → TxEnd
committed true = fine
committed false = refused

abbrev pub commit : {R : Type 0} → Env → M R TxEnd
commit e = do ok ← ask e.ok tx_commit; pure (committed ok)

-- The deferred functions: the rollback where `errCode` is set, then the close.
abbrev pub tx_end : TxEnd → M Bool Bool
tx_end fine = do call tx_close; pure true
tx_end refused = do call tx_rollback; call tx_close; pure false
tx_end swallowed = do call tx_rollback; call tx_close; pure true

-- Whether the function returns no error. A nil session of xorm does not occur.
abbrev pub in_tx : {R : Type 0} → Env → M TxEnd TxEnd → M R Bool
in_tx e body = scoped do
  began ← ask e.ok tx_begin
  when (not began) (do call tx_close; stop false)
  end ← scoped body
  tx_end end

-- `getWeiboRds`.
abbrev pub get_weibo_rds : {R : Type 0} → Env → (user weibo : ℕ) → M R Fetched
get_weibo_rds e user id = ask e.weibo (weibo_call (get_weibo user id))

-- `getLikeAndReplyWeiboRdsIds`: who has liked the post or replied to it.
abbrev pub readers : {R : Type 0} → Env → (weibo publisher : ℕ) → M R (Option (List ℕ))
readers e id publisher = ask e.set_ids (weibo_call (get_readers publisher id))

abbrev pub queue_weibo : WeiboMq → ℕ → List Call → List Call
queue_weibo m to t = mq to (mq_weibo m) ∷ t

abbrev pub queue_to_friend : Client → WeiboMq → ℕ → List Call → List Call
queue_to_friend c m to t = if is_friend c to then queue_weibo m to t else t

-- The user, or a friend of the user.
abbrev pub is_near : Client → ℕ → Bool
is_near c id = c.account_id == id || is_friend c id

-- The comments that both who wrote them and who is answered are near to the user.
abbrev pub visible_replies : Client → List (Option ReplyWeibo) → List ReplyWeibo
visible_replies c [] = []
visible_replies c (none ∷ rs) = visible_replies c rs
visible_replies c (some r ∷ rs) =
    if is_near c r.commentator_id && is_near c r.be_commentator_id
    then r ∷ visible_replies c rs
    else visible_replies c rs

abbrev pub visible_of : Client → Option (List (Option ReplyWeibo)) → Option (List ReplyWeibo)
visible_of c none = none
visible_of c (some rs) = some (visible_replies c rs)

-- `getReplyWeiboRds`.
abbrev pub get_reply_weibo_rds : {R : Type 0} → Env → Weibo → M R (Option (List ReplyWeibo))
get_reply_weibo_rds e w = do
  rows ← ask e.replies (weibo_call (get_replies w.publisher_id w.weibo_id))
  gets (λ c. visible_of c rows)

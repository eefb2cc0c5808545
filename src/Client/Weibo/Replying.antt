-- ===== src/Client/Weibo/Replying.antt =====
-- msg-server/client/weibo.go: `C2SReplyWeibo` and `C2SDeleteReplyWeibo`, with what they write to mysql and
-- redis.
pub mod Refusing
use instant_message.Prelude.{
  ℕ, Bool, false, not, ◌&&◌, ◌||◌, ◌==◌, ltb, leb, Option, none, some, List, [], ◌∷◌, if◌then◌else◌,
}
use instant_message.Client.{Client, is_friend}
use instant_message.Client.WeiboMessage.{
  Weibo, ReplyWeibo, Fetched, missing, garbled, stored, comment_action, delete_comment_action,
  unmarshal_reply, reply_id_error, commentor_is_not_friend, comment_is_too_long, reply_internal,
  like_internal, unmarshal_delete_reply, delete_reply_id_error, recv_reply_weibo, delete_reply_ack,
  mq_reply, log_action, insert_weibo_reply, mark_reply, add_reply_set, remove_reply_set,
  push_reply_list, remove_reply, new_comment_id,
}
use instant_message.Client.Session.{
  Call, Env, Session, M, ◌>>=◌, ◌>>◌, pure, stop, when, gets, call, ask, read_now, scoped, run,
  weibo_call, is_set_member, friend_set, tx_begin, tx_close,
}
use instant_message.Client.Groups.{for_each}
use instant_message.Client.Weibo.{
  weibo_reject, weibo_answer, crashed, must, must_tx, commit, in_tx, get_weibo_rds,
  get_reply_weibo_rds, readers, queue_weibo,
}

module _ (e : Env) where
  unfoldable pub reply_weibo_db : {R : Type 0} → (me : ℕ) → Weibo → ReplyWeibo → M R Bool
  reply_weibo_db me w r = in_tx e do
    must_tx e (log_action comment_action me w.weibo_id w.publisher_id)
    must_tx e (insert_weibo_reply w.publisher_id w.weibo_id r)
    commit e

  pub reply_weibo_rds : {R : Type 0} → (me : ℕ) → Weibo → ReplyWeibo → M R Bool
  reply_weibo_rds me w r = scoped do
    must e (add_reply_set w.publisher_id w.weibo_id me)
    when (not (e.marshal_reply r)) (stop false)
    ask e.ok (weibo_call (push_reply_list w.publisher_id w.weibo_id r))

  -- A reader who is a friend, and whose friend the user is by redis, is told; the publisher is told later.
  abbrev pub tell_reader : Client → Weibo → ReplyWeibo → (reader : ℕ) → List Call → List Call
  tell_reader c w r id t =
      let asked = is_set_member friend_set id c.account_id in
      if not (is_friend c id)
      then t
      else if e.affected t asked == 0 || id == w.publisher_id
      then asked ∷ t
      else queue_weibo (mq_reply r) id (asked ∷ t)

  pub tell_reply : Weibo → ReplyWeibo → Option (List ℕ) → M (Unit {0}) (Unit {0})
  tell_reply w r none = weibo_reject like_internal
  tell_reply w r (some ids) = do
    c ← gets (λ c. c)
    for_each ids (tell_reader c w r)
    for_each (w.publisher_id ∷ []) (queue_weibo (mq_reply r))
    weibo_answer (recv_reply_weibo r.commented_id)

  reply_numbered : ReplyWeibo → Fetched → M (Unit {0}) (Unit {0})
  unfolding reply_weibo_db reply_weibo_rds tell_reply
  reply_numbered r missing = weibo_reject reply_id_error
  reply_numbered r garbled = do call tx_begin; call tx_close; crashed tt
  reply_numbered r (stored w) = do
    me ← gets (λ c. c.account_id)
    kept ← reply_weibo_db me w r
    when (not kept) (weibo_reject reply_internal)
    cached ← reply_weibo_rds me w r
    when (not cached) (weibo_reject reply_internal)
    ids ← readers e w.weibo_id w.publisher_id
    tell_reply w r ids

  -- The commentator is the user, so that the second test of the first check never holds, nor does the length
  -- exceed its bound and stay below 1.
  reply_found : (length : ℕ) → ReplyWeibo → Fetched → M (Unit {0}) (Unit {0})
  unfolding reply_numbered
  reply_found length body found = do
    me ← gets (λ c. c.account_id)
    let r : ReplyWeibo = record body { commentator_id = me }
    c ← gets (λ c. c)
    when
        (not (is_friend c r.commentator_id)
          && (not (me == r.commentator_id) && not (is_friend c r.be_commentator_id)))
        (weibo_reject commentor_is_not_friend)
    when (ltb 2048 length && leb length 0) (weibo_reject comment_is_too_long)
    id ← ask (λ t c. e.uid t) (weibo_call new_comment_id)
    now ← read_now e
    reply_numbered (record r { commented_id = id; comment_time_stamp = now }) found

  abbrev reply_if_found : (length : ℕ) → ReplyWeibo → Fetched → M (Unit {0}) (Unit {0})
  reply_if_found length body missing = weibo_reject reply_id_error
  reply_if_found length body garbled = reply_found length body garbled
  reply_if_found length body (stored w) = reply_found length body (stored w)

  -- A message without its comment is a nil pointer.
  reply_to : (length : ℕ) → Option ReplyWeibo → M (Unit {0}) (Unit {0})
  unfolding reply_found
  reply_to length none = crashed tt
  reply_to length (some body) = do
    found ← get_weibo_rds e body.weibo_publisher_id body.weibo_id
    reply_if_found length body found

  -- `length` is that of the comment in bytes.
  unfoldable pub c2s_reply_weibo :
      (parsed : Bool) → (length : ℕ) → Option ReplyWeibo → Session → Session
  unfolding reply_to
  c2s_reply_weibo parsed length body =
      run do when (not parsed) (weibo_reject unmarshal_reply); reply_to length body

  unfoldable pub delete_weibo_reply_db : {R : Type 0} → (me comment : ℕ) → Weibo → M R Bool
  delete_weibo_reply_db me comment w = in_tx e do
    must_tx e (log_action delete_comment_action me w.weibo_id w.publisher_id)
    must_tx e (mark_reply w.weibo_id comment)
    commit e

  pub delete_weibo_someone_reply_rds : {R : Type 0} → (me : ℕ) → Weibo → ReplyWeibo → M R Bool
  delete_weibo_someone_reply_rds me w r = scoped do
    must e (remove_reply_set w.publisher_id w.weibo_id me)
    ask e.ok (weibo_call (remove_reply w.publisher_id w.weibo_id r))

  abbrev pub find_reply : (weibo comment : ℕ) → List ReplyWeibo → Option ReplyWeibo
  find_reply id comment [] = none
  find_reply id comment (r ∷ rs) =
      if r.weibo_id == id && r.commented_id == comment then some r else find_reply id comment rs

  abbrev pub found_reply : (weibo comment : ℕ) → Option (List ReplyWeibo) → Option ReplyWeibo
  found_reply id comment none = none
  found_reply id comment (some rs) = find_reply id comment rs

  -- Who wrote the comment is not asked; what fails is only logged.
  erase_reply : (me comment : ℕ) → Weibo → Option ReplyWeibo → M (Unit {0}) (Unit {0})
  unfolding delete_weibo_reply_db delete_weibo_someone_reply_rds
  erase_reply me comment w none = pure tt
  erase_reply me comment w (some r) = do
    marked ← delete_weibo_reply_db me comment w
    when marked do removed ← delete_weibo_someone_reply_rds me w r; pure tt

  delete_reply_found : (weibo comment : ℕ) → Fetched → M (Unit {0}) (Unit {0})
  unfolding erase_reply
  delete_reply_found id comment missing = weibo_reject delete_reply_id_error
  delete_reply_found id comment garbled = crashed tt
  delete_reply_found id comment (stored w) = do
    me ← gets (λ c. c.account_id)
    replies ← get_reply_weibo_rds e w
    erase_reply me comment w (found_reply id comment replies)
    weibo_answer delete_reply_ack

  unfoldable pub c2s_delete_reply_weibo :
      (parsed : Bool) → (weibo publisher comment : ℕ) → Session → Session
  unfolding delete_reply_found
  c2s_delete_reply_weibo parsed id publisher comment = run do
    when (not parsed) (weibo_reject unmarshal_delete_reply)
    found ← get_weibo_rds e publisher id
    delete_reply_found id comment found

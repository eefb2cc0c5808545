-- ===== src/Client/Weibo/Cover.antt =====
-- msg-server/client/weiboCover.go: the cover of a user's posts.
use instant_message.Prelude.{ℕ, String, Bool, true, false, not, ◌==◌}
use instant_message.Client.Message.{is_blank}
use instant_message.Client.WeiboMessage.{
  unmarshal_set_cover, cover_is_empty, set_cover_ack, like_cover_ack, weibo_cover, select_cover,
  delete_cover, insert_cover_log, insert_cover, raise_cover_thumbup, set_cover, get_cover,
  delete_cover_likers,
}
use instant_message.Client.Session.{
  Env, Session, M, ◌>>=◌, ◌>>◌, pure, stop, when, gets, ask, scoped, run, set_add, is_set_member,
  cover_liker_set, weibo_call,
}
use instant_message.Client.Weibo.{
  weibo_reject, weibo_answer, must, TxEnd, refused, swallowed, must_tx, commit, in_tx,
}

-- An insertion of no row returns no error, though `errCode` is set.
abbrev pub logged : Bool → (rows : ℕ) → M TxEnd (Unit {0})
logged false n = stop refused
logged true n = when (not (n == 1)) (stop swallowed)

module _ (e : Env) where
  replace_cover : (me : ℕ) → (found : Bool) → M TxEnd (Unit {0})
  replace_cover me false = pure tt
  replace_cover me true = do
    (ok, n) ← ask (λ t c. (e.ok t c, e.affected t c)) (weibo_call (insert_cover_log me))
    logged ok n
    must_tx e (delete_cover me)

  -- The row that is replaced is logged with its date and its count, which are left out.
  unfoldable pub set_weibo_cover_db : {R : Type 0} → (me : ℕ) → String → M R Bool
  unfolding replace_cover
  set_weibo_cover_db me pic = in_tx e do
    (ok, n) ← ask (λ t c. (e.ok t c, e.affected t c)) (weibo_call (select_cover me))
    when (not ok) (stop refused)
    replace_cover me (not (n == 0))
    must_tx e (insert_cover me pic)
    commit e

  pub set_weibo_cover_rds : {R : Type 0} → (me : ℕ) → String → M R Bool
  set_weibo_cover_rds me pic =
      scoped do must e (delete_cover_likers me); ask e.ok (weibo_call (set_cover me pic))

  -- Every failure is told as an empty cover.
  unfoldable pub c2s_set_weibo_cover : (parsed : Bool) → (pic : String) → Session → Session
  unfolding set_weibo_cover_db set_weibo_cover_rds
  c2s_set_weibo_cover parsed pic = run do
    when (not parsed) (weibo_reject unmarshal_set_cover)
    when (is_blank pic) (weibo_reject cover_is_empty)
    me ← gets (λ c. c.account_id)
    cached ← set_weibo_cover_rds me pic
    when (not cached) (weibo_reject cover_is_empty)
    kept ← set_weibo_cover_db me pic
    when (not kept) (weibo_reject cover_is_empty)
    weibo_answer set_cover_ack

  -- The statement of mysql names no account: it raises the count of every cover.
  unfoldable pub c2s_like_friend_weibo_cover : (parsed : Bool) → (friend : ℕ) → Session → Session
  c2s_like_friend_weibo_cover parsed friend = run do
    when (not parsed) (stop tt)
    me ← gets (λ c. c.account_id)
    raised ← ask e.ok (weibo_call raise_cover_thumbup)
    when (not raised) (stop tt)
    added ← ask e.ok (set_add cover_liker_set friend me)
    when (not added) (stop tt)
    weibo_answer like_cover_ack

  unfoldable pub c2s_get_weibo_cover : (parsed : Bool) → (user : ℕ) → Session → Session
  c2s_get_weibo_cover parsed user = run do
    when (not parsed) (stop tt)
    me ← gets (λ c. c.account_id)
    pic ← ask e.text (weibo_call (get_cover user))
    num ← ask e.affected (is_set_member cover_liker_set user me)
    weibo_answer (weibo_cover pic (num == 1))

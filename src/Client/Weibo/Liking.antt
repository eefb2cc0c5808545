-- ===== src/Client/Weibo/Liking.antt =====
-- msg-server/client/weibo.go: `C2SLikeWeibo` and `C2SCancelLikeWeibo`, with what they write to mysql and redis.
pub mod Storing
use instant_message.Prelude.{
  ℕ, Bool, true, false, not, ◌&&◌, ◌==◌, Option, none, some, List, [], ◌∷◌,
}
use instant_message.Prelude.Members.{contains}
use instant_message.Client.{is_friend}
use instant_message.Client.WeiboMessage.{
  Weibo, WeiboRow, LikeWeibo, Fetched, missing, garbled, stored, like_action, cancel_like_action,
  unmarshal_like, like_id_error, liker_is_not_friend, like_internal, unmarshal_cancel_like,
  cancel_like_id_error, cancel_like_internal, recv_like_weibo, cancel_like_ack, mq_like, log_action,
  select_weibo, insert_weibo_like, delete_weibo_like, raise_thumbup, lower_thumbup, set_like_hash,
  remove_like_hash, add_like_set, remove_like_set, get_likers,
}
use instant_message.Client.Session.{
  Env, Session, M, ◌>>=◌, ◌>>◌, when, gets, ask, read_now, scoped, run, weibo_call,
}
use instant_message.Client.Groups.{for_each}
use instant_message.Client.Weibo.{
  weibo_reject, weibo_answer, crashed, must, must_tx, commit, in_tx, get_weibo_rds, readers,
  queue_weibo, queue_to_friend,
}

-- The row of a post that mysql does not have is blank.
abbrev pub row_account : Option WeiboRow → ℕ
row_account none = 0
row_account (some row) = row.account_id

abbrev pub row_weibo : Option WeiboRow → ℕ
row_weibo none = 0
row_weibo (some row) = row.weibo_id

module _ (e : Env) where
  unfoldable pub like_weibo_db : {R : Type 0} → (me weibo publisher : ℕ) → M R Bool
  like_weibo_db me id publisher = in_tx e do
    must_tx e (log_action like_action me id publisher)
    must_tx e (insert_weibo_like id me)
    must_tx e (raise_thumbup id)
    commit e

  pub like_weibo_rds : {R : Type 0} → (me weibo publisher score : ℕ) → M R Bool
  like_weibo_rds me id publisher score = scoped do
    must e (set_like_hash publisher id me score)
    ask e.ok (weibo_call (add_like_set publisher id me))

  pub tell_like : (publisher : ℕ) → LikeWeibo → Option (List ℕ) → M (Unit {0}) (Unit {0})
  tell_like publisher l none = weibo_reject like_internal
  tell_like publisher l (some ids) = do
    c ← gets (λ c. c)
    for_each ids (queue_to_friend c (mq_like l))
    for_each (publisher ∷ []) (queue_weibo (mq_like l))
    weibo_answer recv_like_weibo

  -- The publisher that the request names is never compared with that of the row.
  like_found : (named : ℕ) → Option (Option WeiboRow) → M (Unit {0}) (Unit {0})
  unfolding like_weibo_db like_weibo_rds tell_like
  like_found named none = weibo_reject like_id_error
  like_found named (some row) = do
    me ← gets (λ c. c.account_id)
    friend ← gets (λ c. is_friend c named)
    when (not (me == named) && not friend) (weibo_reject liker_is_not_friend)
    now ← read_now e
    kept ← like_weibo_db me (row_weibo row) (row_account row)
    when (not kept) (weibo_reject like_internal)
    cached ← like_weibo_rds me (row_weibo row) (row_account row) now
    when (not cached) (weibo_reject like_internal)
    ids ← readers e (row_weibo row) (row_account row)
    let l : LikeWeibo = record {
      weibo_id = row_weibo row;
      weibo_publisher_id = named;
      liker_id = me;
    }
    tell_like (row_account row) l ids

  unfoldable pub c2s_like_weibo : (parsed : Bool) → (weibo publisher : ℕ) → Session → Session
  unfolding like_found
  c2s_like_weibo parsed id named = run do
    when (not parsed) (weibo_reject unmarshal_like)
    row ← ask e.weibo_row (weibo_call (select_weibo id))
    like_found named row

  pub cancel_like_weibo_rds : {R : Type 0} → (me : ℕ) → Weibo → M R Bool
  cancel_like_weibo_rds me w = scoped do
    must e (remove_like_hash w.publisher_id w.weibo_id me)
    ask e.ok (weibo_call (remove_like_set w.publisher_id w.weibo_id me))

  unfoldable pub cancel_like_weibo_db : {R : Type 0} → (me : ℕ) → Weibo → M R Bool
  cancel_like_weibo_db me w = in_tx e do
    must_tx e (log_action cancel_like_action me w.weibo_id w.publisher_id)
    must_tx e (delete_weibo_like w.weibo_id me)
    must_tx e (lower_thumbup w.weibo_id)
    commit e

  cancel_liked : Fetched → M (Unit {0}) (Unit {0})
  unfolding cancel_like_weibo_rds cancel_like_weibo_db
  cancel_liked missing = weibo_reject cancel_like_id_error
  cancel_liked garbled = crashed tt
  cancel_liked (stored w) = do
    me ← gets (λ c. c.account_id)
    removed ← cancel_like_weibo_rds me w
    when (not removed) (weibo_reject cancel_like_internal)
    kept ← cancel_like_weibo_db me w
    when (not kept) (weibo_reject cancel_like_internal)
    weibo_answer cancel_like_ack

  cancel_likers : Fetched → Option (List ℕ) → M (Unit {0}) (Unit {0})
  unfolding cancel_liked contains
  cancel_likers found none = weibo_reject cancel_like_internal
  cancel_likers found (some likers) = do
    me ← gets (λ c. c.account_id)
    when (not (contains me likers)) (weibo_reject cancel_like_internal)
    cancel_liked found

  abbrev pub is_missing : Fetched → Bool
  is_missing missing = true
  is_missing _ = false

  unfoldable pub c2s_cancel_like_weibo : (parsed : Bool) → (weibo publisher : ℕ) → Session → Session
  unfolding cancel_likers
  c2s_cancel_like_weibo parsed id publisher = run do
    when (not parsed) (weibo_reject unmarshal_cancel_like)
    found ← get_weibo_rds e publisher id
    when (is_missing found) (weibo_reject cancel_like_id_error)
    likers ← ask e.set_ids (weibo_call (get_likers publisher id))
    cancel_likers found likers

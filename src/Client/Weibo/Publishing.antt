-- ===== src/Client/Weibo/Publishing.antt =====
-- msg-server/client/weibo.go: `C2SPublishWeibo` and `C2SDeleteWeibo`, with what they write to mysql and redis.
pub mod Telling
pub mod Deleting
use Prim.Native.Nat.{bit_and}
use instant_message.Prelude.{
  ℕ, ◌%◌, ◌^◌, Bool, true, false, not, ◌&&◌, ◌||◌, ◌==◌, ltb, length, Option, none, some, List, [],
  ◌∷◌, if◌then◌else◌,
}
use instant_message.Client.{Client, get_friend_ids}
use instant_message.Client.WeiboMessage.{
  Weibo, WeiboRow, PublishReq, Fetched, missing, garbled, stored, publish_action, WeiboError,
  unmarshal_publish, content_is_illegal, text_out_of_limit, url_out_of_limit, publish_internal,
  unmarshal_delete, delete_id_error, delete_internal, recv_publish_weibo, recv_delete_weibo,
  mq_publish, mq_delete, insert_weibo, log_action, set_weibo, push_weibo_list, add_weibo_set,
  add_weibo_zset, select_weibo, delete_weibo_row, insert_weibo_deleted, mark_replies, mark_likes,
  remove_weibo_list, remove_weibo_set, delete_weibo_string, remove_weibo_zset, delete_like_set,
  delete_like_hash, delete_reply_set, delete_reply_list,
}
use instant_message.Client.Session.{
  Call, Env, Session, M, ◌>>=◌, ◌>>◌, pure, stop, when, gets, call, ask, read_now, scoped, run,
  publish, weibo_call, tx_commit, publish_weibo_event,
}
use instant_message.Client.Groups.{for_each}
use instant_message.Client.Weibo.{
  weibo_reject, weibo_answer, crashed, must, TxEnd, fine, refused, swallowed, must_tx, in_tx,
  get_weibo_rds, readers, queue_weibo, queue_to_friend,
}

-- `MsgWeibo`: bit 1 is text, bit 2 pictures, bit 4 videos; 0 has a name too.
abbrev pub has_name : (content_type : ℕ) → Bool
has_name content_type = ltb (content_type % 2 ^ 32) 6

abbrev pub has_bit : (bit content_type : ℕ) → Bool
has_bit bit content_type = bit_and content_type bit == bit

abbrev pub content_error : PublishReq → Option WeiboError
content_error req =
    if not (has_name req.content_type)
    then some content_is_illegal
    else if has_bit 1 req.content_type && ltb 2048 req.text_length
    then some text_out_of_limit
    else if has_bit 2 req.content_type && (ltb 9 (length req.url) || length req.url == 0)
    then some url_out_of_limit
    else if has_bit 4 req.content_type && (ltb 2 (length req.url) || length req.url == 0)
    then some url_out_of_limit
    else none

abbrev pub refuse : Option WeiboError → M (Unit {0}) (Unit {0})
refuse none = pure tt
refuse (some code) = weibo_reject code

-- A commit that fails is rolled back, and no error is returned.
abbrev commit_swallowed : Bool → TxEnd
commit_swallowed true = fine
commit_swallowed false = swallowed

abbrev or_blank : Option WeiboRow → WeiboRow
or_blank none = record { account_id = 0; weibo_id = 0; msg_content = ""; thumbup_times = 0 }
or_blank (some row) = row

-- A post that mysql does not have is deleted all the same; the transaction is rolled back after the commit.
abbrev commit_deletion : (found : Option WeiboRow) → Bool → TxEnd
commit_deletion row false = refused
commit_deletion none true = swallowed
commit_deletion (some row) true = fine

module _ (e : Env) where
  unfoldable pub publish_weibo_db : {R : Type 0} → (me : ℕ) → Weibo → M R Bool
  publish_weibo_db me w = in_tx e do
    must_tx e (insert_weibo me w)
    must_tx e (log_action publish_action me w.weibo_id me)
    ok ← ask e.ok tx_commit
    pure (commit_swallowed ok)

  pub publish_weibo_rds : {R : Type 0} → (me : ℕ) → Weibo → M R Bool
  publish_weibo_rds me w = scoped do
    must e (set_weibo me w)
    must e (push_weibo_list me w.weibo_id)
    must e (add_weibo_set me w.weibo_id)
    ask e.ok (weibo_call (add_weibo_zset me me w.weibo_id w.srv_timestamp))

  -- A friend whose sorted set redis does not change is not told.
  abbrev pub tell_friend : (me : ℕ) → Weibo → (friend : ℕ) → List Call → List Call
  tell_friend me w friend t =
      let c = weibo_call (add_weibo_zset friend me w.weibo_id w.srv_timestamp) in
      if e.ok t c then queue_weibo (mq_publish w) friend (c ∷ t) else c ∷ t

  pub announce_weibo : (me request_id : ℕ) → Weibo → M (Unit {0}) (Unit {0})
  announce_weibo me request_id w = do
    friends ← gets get_friend_ids
    for_each friends (tell_friend me w)
    call (publish (publish_weibo_event request_id w))
    weibo_answer (recv_publish_weibo w.weibo_id)

  pub publish_checked : PublishReq → M (Unit {0}) (Unit {0})
  unfolding publish_weibo_db publish_weibo_rds announce_weibo
  publish_checked req = do
    now ← read_now e
    me ← gets (λ c. c.account_id)
    nick_name ← gets (λ c. c.nick_name)
    let w : Weibo = record {
      weibo_id = now;
      publisher_id = me;
      publisher_nick_name = nick_name;
      content_type = req.content_type;
      text = req.text;
      url_bin = req.url;
      srv_timestamp = now;
    }
    when (not (e.marshal_weibo w)) (weibo_reject publish_internal)
    kept ← publish_weibo_db me w
    when (not kept) (weibo_reject publish_internal)
    cached ← publish_weibo_rds me w
    when (not cached) (weibo_reject publish_internal)
    announce_weibo me req.weibo_id w

  unfoldable pub c2s_publish_weibo : (parsed : Bool) → PublishReq → Session → Session
  unfolding publish_checked
  c2s_publish_weibo parsed req = run do
    when (not parsed) (weibo_reject unmarshal_publish)
    refuse (content_error req)
    when (not (e.marshal_urls req.url)) (weibo_reject publish_internal)
    publish_checked req

  delete_row : (weibo : ℕ) → Option (Option WeiboRow) → M TxEnd TxEnd
  delete_row id none = stop refused
  delete_row id (some row) = do
    must_tx e (delete_weibo_row id)
    must_tx e (insert_weibo_deleted (or_blank row))
    must_tx e (mark_replies id)
    must_tx e (mark_likes id)
    ok ← ask e.ok tx_commit
    pure (commit_deletion row ok)

  unfoldable pub delete_weibo_db : {R : Type 0} → (weibo : ℕ) → M R Bool
  unfolding delete_row
  delete_weibo_db id =
      in_tx e do row ← ask e.weibo_row (weibo_call (select_weibo id)); delete_row id row

  pub delete_weibo_rds : {R : Type 0} → (me weibo : ℕ) → M R Bool
  delete_weibo_rds me id = scoped do
    must e (remove_weibo_list me id)
    must e (remove_weibo_set me id)
    must e (delete_weibo_string me id)
    must e (remove_weibo_zset me me id)
    must e (delete_like_set me id)
    must e (delete_like_hash me id)
    must e (delete_reply_set me id)
    ask e.ok (weibo_call (delete_reply_list me id))

  pub delete_told : (me : ℕ) → Weibo → Option (List ℕ) → M (Unit {0}) (Unit {0})
  unfolding delete_weibo_rds
  delete_told me w none = stop tt
  delete_told me w (some ids) = do
    removed ← delete_weibo_rds me w.weibo_id
    when (not removed) (weibo_reject delete_internal)
    c ← gets (λ c. c)
    for_each ids (queue_to_friend c (mq_delete w.publisher_id w.weibo_id))
    weibo_answer recv_delete_weibo

  delete_found : (me : ℕ) → Fetched → M (Unit {0}) (Unit {0})
  unfolding delete_weibo_db delete_told
  delete_found me missing = weibo_reject delete_id_error
  delete_found me garbled = crashed tt
  delete_found me (stored w) = do
    when (not (me == w.publisher_id)) (weibo_reject delete_id_error)
    deleted ← delete_weibo_db w.weibo_id
    when (not deleted) (weibo_reject delete_internal)
    ids ← readers e w.weibo_id me
    delete_told me w ids

  unfoldable pub c2s_delete_weibo : (parsed : Bool) → (weibo : ℕ) → Session → Session
  unfolding delete_found
  c2s_delete_weibo parsed id = run do
    when (not parsed) (weibo_reject unmarshal_delete)
    me ← gets (λ c. c.account_id)
    found ← get_weibo_rds e me id
    delete_found me found

-- ===== src/Client/Weibo/Publishing/Telling.antt =====
-- Whom a user who publishes a post tells of it: `C2SPublishWeibo` (weibo.go).
use instant_message.Prelude.{
  subst, sym, ℕ, ◌≡◌, refl, Bool, true, false, not, ◌||◌, ◌==◌, Option, none, some, List, [], ◌∷◌,
  arith,
}
use instant_message.Prelude.Members.{contains, contains-keys}
use instant_message.Client.{Client, is_friend, get_friend_ids}
use instant_message.Client.WeiboMessage.{
  publish_internal, Weibo, PublishReq, WeiboError, mq_publish, add_weibo_zset, insert_weibo,
  log_action, publish_action, set_weibo, push_weibo_list, add_weibo_set, recv_publish_weibo,
}
use instant_message.Client.Session.{
  publish, publish_weibo_event, Call, Env, M, when, ◌>>=◌, start, mq, mq_weibo, send, weibo_call,
  weibo_reply, read_clock, tx_begin, tx_commit, tx_close, run,
}
use instant_message.Client.Groups.{each}
use instant_message.Client.Weibo.{weibo_reject}
use instant_message.Client.Weibo.Publishing.{
  content_error, refuse, tell_friend, publish_checked, publish_weibo_db, publish_weibo_rds,
  announce_weibo, c2s_publish_weibo,
}

-- Whether the user is queued a post.
abbrev pub told_of_post : (user : ℕ) → List Call → Bool
told_of_post user [] = false
told_of_post user (mq to (mq_weibo (mq_publish w)) ∷ cs) = to == user || told_of_post user cs
told_of_post user (c ∷ cs) = told_of_post user cs

-- Every post that is queued, and every one that an event carries, is this one.
abbrev pub OnlyPost : Weibo → List Call → Type 0
OnlyPost w [] = Unit
OnlyPost w (mq to (mq_weibo (mq_publish v)) ∷ cs) = (v ≡ w) × OnlyPost w cs
OnlyPost w (publish (publish_weibo_event id v) ∷ cs) = (v ≡ w) × OnlyPost w cs
OnlyPost w (c ∷ cs) = OnlyPost w cs

-- The post that the user's terminal is told last to be published.
abbrev pub published_id : List Call → Option ℕ
published_id (send (weibo_reply (recv_publish_weibo id)) ∷ cs) = some id
published_id _ = none

module _ (e : Env) (me : ℕ) (w : Weibo) where
  told-tell_friend :
      (k : ℕ)
      → ((t : List Call) (friend : ℕ)
          → e.ok t (weibo_call (add_weibo_zset friend me w.weibo_id w.srv_timestamp)) ≡ true)
      → (ids : List ℕ) (t : List Call)
      → told_of_post k (each (tell_friend e me w) ids t) ≡ (contains k ids || told_of_post k t)
  unfolding contains
  told-tell_friend k works [] t = refl
  told-tell_friend k works (id ∷ ids) t =
      ground (arith, works t id, told-tell_friend k works ids (tell_friend e me w id t))

  OnlyPost-tell_friend :
      (ids : List ℕ) (t : List Call) → OnlyPost w t → OnlyPost w (each (tell_friend e me w) ids t)
  OnlyPost-tell_friend [] t h = h
  OnlyPost-tell_friend (id ∷ ids) t h =
      OnlyPost-tell_friend ids (tell_friend e me w id t) (ground (arith, h))

friends-is_friend : (c : Client) (k : ℕ) → contains k (get_friend_ids c) ≡ is_friend c k
unfolding is_friend get_friend_ids
friends-is_friend c k = contains-keys k c.contacts

module _ (e : Env) (c : Client) (req : PublishReq) where
  abbrev post : Weibo
  post = record {
    weibo_id = e.now [];
    publisher_id = c.account_id;
    publisher_nick_name = c.nick_name;
    content_type = req.content_type;
    text = req.text;
    url_bin = req.url;
    srv_timestamp = e.now [];
  }

  -- The user `k` is told of the post if a friend, no other post is told, and the user learns its id.
  abbrev pub NewsOf : (k : ℕ) → List Call → Type 0
  NewsOf k t =
      (told_of_post k t ≡ is_friend c k) × OnlyPost post t × (published_id t ≡ some post.weibo_id)

  abbrev db_calls : List Call
  db_calls =
      weibo_call (log_action publish_action c.account_id (e.now []) c.account_id)
      ∷ weibo_call (insert_weibo c.account_id post)
      ∷ tx_begin
      ∷ read_clock
      ∷ []

  abbrev redis_calls : List Call
  redis_calls =
      weibo_call (add_weibo_set c.account_id (e.now []))
      ∷ weibo_call (push_weibo_list c.account_id (e.now []))
      ∷ weibo_call (set_weibo c.account_id post)
      ∷ tx_close
      ∷ tx_commit
      ∷ db_calls

  checked-NewsOf :
      (whole : e.marshal_weibo post ≡ true)
      → ((t : List Call) (d : Call) → e.ok t d ≡ true)
      → (k : ℕ) → NewsOf k (run (publish_checked e req) (start c)).trace
  unfolding publish_checked publish_weibo_db publish_weibo_rds announce_weibo
  checked-NewsOf whole works k = ground (
    arith,
    whole,
    works (read_clock ∷ []) tx_begin,
    works (tx_begin ∷ read_clock ∷ []) (weibo_call (insert_weibo c.account_id post)),
    works (weibo_call (insert_weibo c.account_id post) ∷ tx_begin ∷ read_clock ∷ [])
        (weibo_call (log_action publish_action c.account_id (e.now []) c.account_id)),
    works db_calls tx_commit,
    works (tx_close ∷ tx_commit ∷ db_calls) (weibo_call (set_weibo c.account_id post)),
    works (weibo_call (set_weibo c.account_id post) ∷ tx_close ∷ tx_commit ∷ db_calls)
        (weibo_call (push_weibo_list c.account_id (e.now []))),
    works
        (weibo_call (push_weibo_list c.account_id (e.now []))
          ∷ weibo_call (set_weibo c.account_id post)
          ∷ tx_close
          ∷ tx_commit
          ∷ db_calls)
        (weibo_call (add_weibo_set c.account_id (e.now []))),
    works redis_calls (weibo_call (add_weibo_zset c.account_id c.account_id (e.now []) (e.now []))),
    friends-is_friend c k,
    told-tell_friend e c.account_id post k (λ t friend. works t _) (get_friend_ids c)
        (weibo_call (add_weibo_zset c.account_id c.account_id (e.now []) (e.now [])) ∷ redis_calls),
    OnlyPost-tell_friend e c.account_id post (get_friend_ids c)
        (weibo_call (add_weibo_zset c.account_id c.account_id (e.now []) (e.now [])) ∷ redis_calls)
        tt,
  )

  checked_passes :
      (error : Option WeiboError) (urls : Bool)
      → error ≡ none
      → urls ≡ true
      → (m : M (Unit {0}) (Unit {0}))
      → run
          (refuse error >>= λ _. when (not urls) (weibo_reject publish_internal) >>= λ _. m)
          (start c)
        ≡ run m (start c)
  checked_passes none true fits ok m = refl
  checked_passes none false fits ok m = ground arith
  checked_passes (some code) urls fits ok m = ground arith

  -- Where mysql and redis execute every command, a post that passes the checks and can be marshalled is queued to
  -- every friend of the user and to nobody else; what is queued is the post with the text and the addresses of
  -- the request, in the name of the user and stamped by the clock, and the user is told its id.
  pub publish_tells_friends :
      (fits : content_error req ≡ none)
      → (urls : e.marshal_urls req.url ≡ true) → (whole : e.marshal_weibo post ≡ true)
      → (works : (t : List Call) (d : Call) → e.ok t d ≡ true) → (k : ℕ)
      → NewsOf k (c2s_publish_weibo e true req (start c)).trace
  unfolding c2s_publish_weibo
  publish_tells_friends fits urls whole works k =
      subst (λ s. NewsOf k s.trace)
        (sym (
          checked_passes (content_error req) (e.marshal_urls req.url) fits urls
            (publish_checked e req)))
        (checked-NewsOf whole works k)

-- ===== src/Client/Weibo/Liking/Storing.antt =====
-- Whose likes are kept: `C2SLikeWeibo` (weibo.go).
use instant_message.Prelude.{
  ℕ, ◌≡◌, refl, Bool, true, false, ◌&&◌, ◌||◌, ◌==◌, Option, none, some, List, [], ◌∷◌, arith,
}
use instant_message.Client.{Client}
use instant_message.Client.WeiboMessage.{
  WeiboMq, WeiboRow, LikeWeibo, add_like_set, select_weibo, log_action, like_action,
  insert_weibo_like, raise_thumbup, set_like_hash, get_readers, mq_like,
}
use instant_message.Client.Session.{
  Call, Env, Session, start, run, read_clock, weibo_call, tx_begin, tx_commit, tx_close,
}
use instant_message.Client.Groups.{each}
use instant_message.Client.Weibo.{queue_to_friend, is_near}
use instant_message.Client.Weibo.Liking.{
  row_account, row_weibo, like_weibo_db, like_weibo_rds, tell_like, like_found, c2s_like_weibo,
}

-- Whether the user is put in the set in redis of those who like the post.
abbrev pub keeps_like : (publisher weibo user : ℕ) → List Call → Bool
keeps_like p w u [] = false
keeps_like p w u (weibo_call (add_like_set q v k) ∷ cs) =
    q == p && v == w && k == u || keeps_like p w u cs
keeps_like p w u (c ∷ cs) = keeps_like p w u cs

module _ (p w u : ℕ) where
  each-keeps_like :
      (c : Client) (m : WeiboMq) (ids : List ℕ) (t : List Call)
      → keeps_like p w u (each (queue_to_friend c m) ids t) ≡ keeps_like p w u t
  each-keeps_like c m [] t = refl
  each-keeps_like c m (id ∷ ids) t =
      ground (arith, each-keeps_like c m ids (queue_to_friend c m id t))

  tell_like-keeps_like :
      (e : Env) (publisher : ℕ) (l : LikeWeibo) (ids : Option (List ℕ)) (s : Session)
      → keeps_like p w u (run (tell_like e publisher l ids) s).trace ≡ keeps_like p w u s.trace
  unfolding tell_like
  tell_like-keeps_like e publisher l none s = refl
  tell_like-keeps_like e publisher l (some ids) s =
      ground (arith, each-keeps_like s.client (mq_like l) ids s.trace)

module _ (e : Env) (c : Client) (id named : ℕ)
    (works : (t : List Call) (d : Call) → e.ok t d ≡ true) where
  module _ (row : Option WeiboRow) where
    abbrev log : Call
    log = weibo_call (log_action like_action c.account_id (row_weibo row) (row_account row))

    abbrev insert : Call
    insert = weibo_call (insert_weibo_like (row_weibo row) c.account_id)

    abbrev raise : Call
    raise = weibo_call (raise_thumbup (row_weibo row))

    abbrev begun : List Call
    begun = tx_begin ∷ read_clock ∷ weibo_call (select_weibo id) ∷ []

    abbrev ended : List Call
    ended = tx_close ∷ tx_commit ∷ raise ∷ insert ∷ log ∷ begun

    abbrev score : Call
    score = weibo_call (
        set_like_hash (row_account row) (row_weibo row) c.account_id
          (e.now (weibo_call (select_weibo id) ∷ [])))

    abbrev add : Call
    add = weibo_call (add_like_set (row_account row) (row_weibo row) c.account_id)

    abbrev read : Call
    read = weibo_call (get_readers (row_account row) (row_weibo row))

    like_found-keeps_like :
        keeps_like
          (row_account row)
          (row_weibo row)
          c.account_id
          (run
            (like_found e named (some row))
            (record { client = c; trace = weibo_call (select_weibo id) ∷ [] })).trace
        ≡ is_near c named
    unfolding like_found like_weibo_db like_weibo_rds
    like_found-keeps_like = ground (
      arith,
      works (read_clock ∷ weibo_call (select_weibo id) ∷ []) tx_begin,
      works begun log,
      works (log ∷ begun) insert,
      works (insert ∷ log ∷ begun) raise,
      works (raise ∷ insert ∷ log ∷ begun) tx_commit,
      works ended score,
      works (score ∷ ended) add,
      tell_like-keeps_like (row_account row) (row_weibo row) c.account_id e (row_account row)
          (record { weibo_id = row_weibo row; weibo_publisher_id = named; liker_id = c.account_id })
          (e.set_ids (add ∷ score ∷ ended) read)
          (record { client = c; trace = read ∷ add ∷ score ∷ ended }),
    )

  -- Where mysql and redis execute every command, the like of a post whose row mysql gives is kept exactly where
  -- the account that the request names as publisher is the user or a friend, whoever has published the post.
  pub like_kept_iff_near :
      (row : Option WeiboRow)
      → e.weibo_row [] (weibo_call (select_weibo id)) ≡ some row
      → keeps_like
          (row_account row)
          (row_weibo row)
          c.account_id
          (c2s_like_weibo e true id named (start c)).trace
        ≡ is_near c named
  unfolding c2s_like_weibo
  like_kept_iff_near row h = rw h (like_found-keeps_like row)

-- ===== src/Client/Weibo/Settling.antt =====
-- How the transactions of weibo.go and weiboCover.go end.
use instant_message.Prelude.{ℕ, ◌≡◌, String, Bool, true, false, List, ◌∷◌, arith}
use instant_message.Client.WeiboMessage.{Weibo, ReplyWeibo}
use instant_message.Client.Session.{Call, Env, Session, M, tx_close}
use instant_message.Client.Flows.{Yields}
use instant_message.Client.Deletion.Transaction.{Tx, tx_state, idle, opened, left_open}
use instant_message.Client.Weibo.Publishing.{publish_weibo_db, delete_weibo_db}
use instant_message.Client.Weibo.Liking.{like_weibo_db, cancel_like_weibo_db}
use instant_message.Client.Weibo.Replying.{reply_weibo_db, delete_weibo_reply_db}
use instant_message.Client.Weibo.Cover.{set_weibo_cover_db}

-- The writes of mysql, by the user who makes them.
pub data Write : Type 0 where
  publish_write : Weibo → Write
  delete_write : (weibo : ℕ) → Write
  like_write : (weibo publisher : ℕ) → Write
  cancel_like_write : Weibo → Write
  reply_write : Weibo → ReplyWeibo → Write
  delete_reply_write : (comment : ℕ) → Weibo → Write
  cover_write : (pic : String) → Write

-- Neither open nor closed with its outcome undecided.
abbrev pub is_over : Tx → Bool
is_over opened = false
is_over left_open = false
is_over _ = true

abbrev pub is_closed : List Call → Bool
is_closed (tx_close ∷ cs) = true
is_closed cs = false

module _ (e : Env) (me : ℕ) where
  abbrev pub write : Write → M (Unit {0}) Bool
  write (publish_write w) = publish_weibo_db e me w
  write (delete_write id) = delete_weibo_db e id
  write (like_write id publisher) = like_weibo_db e me id publisher
  write (cancel_like_write w) = cancel_like_weibo_db e me w
  write (reply_write w r) = reply_weibo_db e me w r
  write (delete_reply_write comment w) = delete_weibo_reply_db e me comment w
  write (cover_write pic) = set_weibo_cover_db e me pic

  -- The client is kept, the transaction was not begun or is settled, and the session of mysql is closed.
  abbrev pub Settled : (s t : Session) → Type 0
  Settled s t =
      (t.client ≡ s.client) × (is_over (tx_state e t.trace) ≡ true) × (is_closed t.trace ≡ true)

  -- Every write about posts that finds no transaction begun leaves none that is undecided, open or closed, and
  -- closes its session last; it returns to its caller, whatever fails, and keeps the client.
  pub weibo_writes_settle :
      (w : Write) (s : Session)
      → tx_state e s.trace ≡ idle
      → Yields (λ ok. Settled s) (λ r t. true ≡ false) (write w s)
  unfolding publish_weibo_db delete_weibo_db like_weibo_db cancel_like_weibo_db reply_weibo_db
      delete_weibo_reply_db set_weibo_cover_db
  weibo_writes_settle (publish_write w) s h = ground (arith, h)
  weibo_writes_settle (delete_write id) s h = ground (arith, h)
  weibo_writes_settle (like_write id publisher) s h = ground (arith, h)
  weibo_writes_settle (cancel_like_write w) s h = ground (arith, h)
  weibo_writes_settle (reply_write w r) s h = ground (arith, h)
  weibo_writes_settle (delete_reply_write comment w) s h = ground (arith, h)
  weibo_writes_settle (cover_write pic) s h = ground (arith, h)

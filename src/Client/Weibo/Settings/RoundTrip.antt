-- ===== src/Client/Weibo/Settings/RoundTrip.antt =====
-- How far back friends may look: what is set is what is read (weiboAllowQuery.go).
use instant_message.Prelude.{
  ℕ, ◌≡◌, true, ◌&&◌, ◌==◌, ltb, Option, none, some, List, [], ◌∷◌, arith, if◌then◌else◌,
}
use instant_message.Client.{Client}
use instant_message.Client.WeiboMessage.{look_strategy, get_strategy, set_strategy, delete_strategy}
use instant_message.Client.Session.{Call, Env, Session, start, send, weibo_call, weibo_reply}
use instant_message.Client.Weibo.Settings.{
  strategy_call, c2s_friend_look_weibo_strategy, c2s_get_friend_look_weibo_strategy,
}

-- What redis keeps for the user after the calls, by the answers to them.
abbrev pub strategy_after : Env → (user : ℕ) → (before : Option ℕ) → List Call → Option ℕ
strategy_after e user before [] = before
strategy_after e user before (weibo_call (set_strategy k n) ∷ cs) =
    if e.ok cs (weibo_call (set_strategy k n)) && k == user
    then some n
    else strategy_after e user before cs
strategy_after e user before (weibo_call (delete_strategy k) ∷ cs) =
    if e.ok cs (weibo_call (delete_strategy k)) && k == user
    then none
    else strategy_after e user before cs
strategy_after e user before (c ∷ cs) = strategy_after e user before cs

module _ (e : Env) (c : Client) (n : ℕ) where
  abbrev pub set_once : Session
  set_once = c2s_friend_look_weibo_strategy e true n (start c)

  -- A user who sets one of the four strategies, with a redis that executes the command and gives what it has
  -- kept, reads the same strategy afterwards.
  pub strategy_roundtrip :
      (before : Option ℕ)
      → (fits : ltb n 4 ≡ true) → (works : e.ok [] (strategy_call e c.account_id n) ≡ true)
      → (keeps : e.id set_once.trace (weibo_call (get_strategy c.account_id))
          ≡ strategy_after e c.account_id before set_once.trace)
      → (c2s_get_friend_look_weibo_strategy e true set_once).trace
        ≡ send (weibo_reply (look_strategy n))
          ∷ weibo_call (get_strategy c.account_id)
          ∷ set_once.trace
  unfolding c2s_friend_look_weibo_strategy c2s_get_friend_look_weibo_strategy
  strategy_roundtrip before fits works keeps = ground (arith, fits, works, keeps)

-- ===== src/Client/Weibo/Settings/Excluding.antt =====
-- Whom the settings of weiboAllowQuery.go put in the sets in redis.
use instant_message.Prelude.{ℕ, ◌≡◌, refl, Bool, true, List, [], ◌∷◌, arith, if◌then◌else◌}
use instant_message.Prelude.Members.{contains}
use instant_message.Client.{Client, is_friends}
use instant_message.Client.Session.{
  Call, Env, Session, start, Key, dont_look_weibo_set, forbidden_look_weibo_set,
}
use instant_message.Client.Redis.{in_set}
use instant_message.Client.Flows.{Yields, Within-then, Keeping}
use instant_message.Client.Weibo.Settings.{
  set_each, set_call, c2s_dont_look_friend_weibo, c2s_forbidden_friend_look_weibo, finish_dont_look,
  finish_forbidden,
}
use instant_message.Client.Weibo.Settings.Lists.{after_dont_look, after_forbidden}

module _ (e : Env) (put : Bool) (key : Key) (me k : ℕ) (before : Bool) where
  abbrev After : (ids : List ℕ) → (from : Session) → Session → Type 0
  After ids from t =
      (t.client ≡ from.client)
      × (in_set e key before me k t.trace
          ≡ (if contains k ids then put else in_set e key before me k from.trace))

  -- Where redis executes every command, each friend is put in the set or taken out of it.
  set_each-After :
      ((t : List Call) (d : Call) → e.ok t d ≡ true)
      → (ids : List ℕ) (ok : Bool) (s : Session)
      → Yields {R = Unit {0}} (λ r. After ids s) (λ r. After ids s) (set_each e put key me ids ok s)
  unfolding set_each contains
  set_each-After works [] ok s = (refl, refl)
  set_each-After works (id ∷ ids) ok s =
      let t = set_call put key me id in
      ground (
        arith,
        works s.trace t,
        set_each-After works ids (e.ok s.trace t) (record s { trace = t ∷ s.trace }),
      )

module _ (e : Env) (c : Client) (ids : List ℕ) (put : Bool) (k : ℕ) (before : Bool)
    (works : (t : List Call) (d : Call) → e.ok t d ≡ true) where
  abbrev pub Holds : Key → List Call → Type 0
  Holds key t =
      in_set e key before c.account_id k t ≡ (if contains k (is_friends c ids) then put else before)

  -- Where redis executes every command, a user who excludes the users of a list, or takes them back, has the
  -- friends among them in the set of those not looked at, or out of it, and nobody else is touched; the same
  -- for the set of those who may not look.
  pub exclusion_changes_friends :
      Holds dont_look_weibo_set (c2s_dont_look_friend_weibo e true ids put (start c)).trace
      × Holds forbidden_look_weibo_set
          (c2s_forbidden_friend_look_weibo e true ids put (start c)).trace
  unfolding c2s_dont_look_friend_weibo c2s_forbidden_friend_look_weibo
  exclusion_changes_friends =
      let D = Holds dont_look_weibo_set in
      let F = Holds forbidden_look_weibo_set in
      let friends = is_friends c ids in
      (
        (Within-then (Keeping c D) (set_each e put dont_look_weibo_set c.account_id friends true)
            (finish_dont_look e) (start c)
            (set_each-After e put dont_look_weibo_set c.account_id k before works friends true
              (start c))
            (after_dont_look e c D (λ t i q. q) (λ t k i q. q) (λ t r q. q))).1,
        (Within-then (Keeping c F)
            (set_each e put forbidden_look_weibo_set c.account_id friends true) (finish_forbidden e)
            (start c)
            (set_each-After e put forbidden_look_weibo_set c.account_id k before works friends true
              (start c))
            (after_forbidden e c F (λ t i q. q) (λ t k i q. q) (λ t r q. q))).1,
      )

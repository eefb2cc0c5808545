-- ===== src/Client/Weibo/Browsing/Keeps.antt =====
-- Looking at posts (weibo.go) leaves the client as it was.
use instant_message.Prelude.{
  ℕ, ◌≡◌, refl, Bool, true, false, Option, none, some, List, [], ◌∷◌, ◌≢◌, arith,
}
use instant_message.Client.{Client, is_friend}
use instant_message.Client.WeiboMessage.{
  Fetched, missing, garbled, stored, BrowseWeibo, PostKey, get_weibo, get_strategy, browse_all,
  browse_someone,
}
use instant_message.Client.Session.{
  Env, Session, Flow, final, is_set_member, friend_set, forbidden_look_weibo_set, weibo_call,
}
use instant_message.Client.Flows.{Yields, Yields-weaken, Yields-then}
use instant_message.Client.Weibo.{weibo_answer}
use instant_message.Client.Weibo.Settings.{none_in_set, strategy_of, number_of}
use instant_message.Client.Weibo.Browsing.{
  check_publisher, refuse_old, detail, show_any, show_of, browse_any, browse_of, browse, browse_if,
  keys_of, look, page, reversed, bound_for, c2s_browse_all_weibo, c2s_browse_someone_weibo,
}
use instant_message.Client.Weibo.Browsing.Loop.{IfShown, Outcome, browse-Shown}

abbrev Any : BrowseWeibo → Type 0
Any b = Unit

module _ (e : Env) (c : Client) where
  abbrev Same : {A : Type 0} → A → Session → Type 0
  Same a t = t.client ≡ c

  outcome :
      (f : Flow (Option BrowseWeibo) (Option BrowseWeibo))
      → Yields Same Same f
      → Yields (Outcome c Any) (Outcome c Any) f
  outcome f h = Yields-weaken (λ o t k. (k, any o)) (λ o t k. (k, any o)) f h
    where
      any : (o : Option BrowseWeibo) → IfShown Any o
      any none = tt
      any (some b) = tt

  show_any-Same :
      (found : Fetched) (s : Session) → Same tt s → Yields Same Same (show_any e found s)
  unfolding show_any check_publisher detail refuse_old
  show_any-Same missing s h = h
  show_any-Same garbled s h = h
  show_any-Same (stored w) s h = ground (arith, h)

  browse_any-Outcome :
      (key : PostKey) (s : Session)
      → s.client ≡ c
      → Yields (Outcome c Any) (Outcome c Any) (browse_any e key s)
  unfolding browse_any
  browse_any-Outcome key s h =
      let asked = weibo_call (get_weibo key.publisher key.post) in
      outcome (browse_any e key s)
        (show_any-Same (e.weibo s.trace asked) (record s { trace = asked ∷ s.trace }) h)

  show_of-Same :
      (seconds : ℕ) (found : Fetched) (s : Session)
      → Same tt s
      → Yields Same Same (show_of e seconds found s)
  unfolding show_of detail refuse_old
  show_of-Same seconds missing s h = h
  show_of-Same seconds garbled s h = h
  show_of-Same seconds (stored w) s h = ground (arith, h)

  browse_of-Outcome :
      (friend seconds : ℕ) (key : PostKey) (s : Session)
      → s.client ≡ c
      → Yields (Outcome c Any) (Outcome c Any) (browse_of e friend seconds key s)
  unfolding browse_of
  browse_of-Outcome friend seconds key s h =
      let asked = weibo_call (get_weibo key.publisher key.post) in
      let t = record s { trace = asked ∷ s.trace } in
      outcome (browse_of e friend seconds key s)
        (ground (arith, h, show_of-Same seconds (e.weibo s.trace asked) t h))

  browse_of-all :
      (friend seconds : ℕ) (bound : Option ℕ) (keys : List PostKey) (s : Session)
      → bound ≢ some 0
      → s.client ≡ c
      → Yields {R = Unit {0}} Same Same (browse e (browse_of e friend seconds) bound keys [] s)
  browse_of-all friend seconds none keys s p h =
      Yields-weaken (λ shown t k. k.0) (λ r t k. k)
        (browse e (browse_of e friend seconds) none keys [] s)
        (browse-Shown e c Any Same (browse_of e friend seconds) (browse_of-Outcome friend seconds)
          none keys [] s h tt tt)
  browse_of-all friend seconds (some n) keys s p h =
      Yields-weaken (λ shown t k. k.0) (λ r t k. k)
        (browse e (browse_of e friend seconds) (some n) keys [] s)
        (browse-Shown e c Any Same (browse_of e friend seconds) (browse_of-Outcome friend seconds)
          (some n) keys [] s h tt (ground (arith, p)))

  keys_of-Same :
      (me friend last num : ℕ) (s : Session)
      → Same tt s
      → Yields {R = Unit {0}} Same Same (keys_of e me friend last num s)
  unfolding keys_of
  keys_of-Same me friend last num s h = ground (arith, h)

  browse_if-Same :
      (me friend seconds : ℕ) (allowed : Bool) (keys : List PostKey) (s : Session)
      → Same tt s
      → Yields Same Same (browse_if e me friend seconds allowed keys s)
  unfolding browse_if
  browse_if-Same me friend seconds false keys s h = h
  browse_if-Same me friend seconds true keys s h =
      browse_of-all friend seconds (bound_for me friend (is_friend s.client friend))
        (reversed keys []) s (ground arith) h

  look-Same :
      (friend me : ℕ) (keys : List PostKey) (s : Session)
      → Same tt s
      → (final (look e friend me keys s)).client ≡ c
  unfolding look
  look-Same friend me keys s h =
      let asked = weibo_call (get_strategy friend) in
      let t1 = asked ∷ s.trace in
      let forbidden = is_set_member forbidden_look_weibo_set friend me in
      let found = strategy_of (number_of (e.id s.trace asked)) in
      let t = record s { trace = forbidden ∷ t1 } in
      let allowed = none_in_set (e.ok t1 forbidden) (e.affected t1 forbidden) in
      Yields-then Same (Same tt) (browse_if e me friend found.1 allowed keys)
        (λ shown. weibo_answer (browse_someone shown found.0)) t
        (browse_if-Same me friend found.1 allowed keys t h) (λ shown t k. k)

pub browse_all-client :
    (e : Env) (s : Session) (last : ℕ) (parsed : Bool)
    → (c2s_browse_all_weibo e parsed last s).client ≡ s.client
unfolding c2s_browse_all_weibo
browse_all-client e s last false = refl
browse_all-client e s last true =
    let asked = page e s.client.account_id last in
    let keys = reversed (e.posts s.trace asked) [] in
    let t = record s { trace = asked ∷ s.trace } in
    Yields-then (Same e s.client) (Same e s.client tt) (browse e (browse_any e) (some 12) keys [])
      (λ shown. weibo_answer (browse_all shown)) t
      (Yields-weaken (λ shown t k. k.0) (λ r t k. k) (browse e (browse_any e) (some 12) keys [] t)
        (browse-Shown e s.client Any (Same e s.client) (browse_any e)
          (browse_any-Outcome e s.client) (some 12) keys [] t refl tt (omega arith)))
      (λ shown t k. k)

pub browse_someone-client :
    (e : Env) (s : Session) (friend last : ℕ) (parsed : Bool)
    → (c2s_browse_someone_weibo e parsed friend last s).client ≡ s.client
unfolding c2s_browse_someone_weibo
browse_someone-client e s friend last false = refl
browse_someone-client e s friend last true =
    let me = s.client.account_id in
    let asked = is_set_member friend_set friend me in
    let t = record s { trace = asked ∷ s.trace } in
    Yields-then (Same e s.client) (Same e s.client tt)
      (keys_of e me friend last (e.affected s.trace asked)) (look e friend me) t
      (keys_of-Same e s.client me friend last (e.affected s.trace asked) t refl)
      (λ keys t k. look-Same e s.client friend me keys t k)

-- ===== src/Client/Weibo/Browsing/Someone.antt =====
-- What a user who looks at the posts of somebody is shown (weibo.go).
use instant_message.Prelude.{
  sym, subst, ℕ, ◌≡◌, refl, Bool, true, false, not, ◌&&◌, ◌||◌, Option, none, some, List, [], ◌∷◌,
  ◌==◌, leb, length, arith, if◌then◌else◌,
}
use instant_message.Client.{Client, is_friend}
use instant_message.Client.WeiboMessage.{
  Fetched, missing, garbled, stored, Weibo, BrowseWeibo, PostKey, browse_someone, get_weibo,
  get_strategy,
}
use instant_message.Client.Session.{
  Call, Env, Session, final, start, Key, is_set_member, stranger_look_weibo_set,
  forbidden_look_weibo_set, friend_set, weibo_call,
}
use instant_message.Client.Flows.{Yields, Yields-bind, Yields-weaken, Yields-then}
use instant_message.Client.Weibo.{weibo_answer}
use instant_message.Client.Weibo.Settings.{
  none_in_set, strategy_of, number_of, allow_strangers_look_weibo,
}
use instant_message.Client.Weibo.Browsing.Loop.{
  is_nil, Each, IsVisible, IfShown, Outcome, all_shown, browse-Shown, Detailed, detail-Detailed,
  refuse_old-client,
}
use instant_message.Client.Weibo.Browsing.{
  reversed, detail, show_of, browse_of, browse, refuse_old, near_likers, keys_of, look, bound_for,
  browse_if, c2s_browse_someone_weibo,
}

-- The redis that answers alike throughout, and what it and the client say of a publisher.
module _ (e : Env)
    (steady_ok : (t : List Call) (key : Key) (a b : ℕ)
      → e.ok t (is_set_member key a b) ≡ e.ok [] (is_set_member key a b))
    (steady : (t : List Call) (key : Key) (a b : ℕ)
      → e.affected t (is_set_member key a b) ≡ e.affected [] (is_set_member key a b)) where
  abbrev says_no : Key → (owner member : ℕ) → Bool
  says_no key a b =
      none_in_set (e.ok [] (is_set_member key a b)) (e.affected [] (is_set_member key a b))

  module _ (c : Client) where
    -- What a post of somebody in particular satisfies.
    abbrev WithVisible : BrowseWeibo → Type 0
    WithVisible b = Each (IsVisible c) b.replay_weibo

    show_of-Shown :
        (seconds : ℕ) (found : Fetched) (s : Session)
        → s.client ≡ c
        → Yields (Outcome c WithVisible) (Outcome c WithVisible) (show_of e seconds found s)
    unfolding show_of
    show_of-Shown seconds missing s h = (h, tt)
    show_of-Shown seconds garbled s h = (h, tt)
    show_of-Shown seconds (stored w) s h =
        Yields-bind (Outcome c WithVisible) (λ u t. t.client ≡ c) (Outcome c WithVisible)
          (refuse_old e seconds w) (λ u. detail e near_likers w) s (old w s h)
          (λ u t k.
            Yields-weaken (λ o q r. (r.0, shows w o r.1)) (λ o q r. (r.0, shows w o r.1))
              (detail e near_likers w t) (detail-Detailed e c near_likers w t k))
      where
        shows :
            (w : Weibo) (o : Option BrowseWeibo)
            → IfShown (Detailed e c w) o
            → IfShown WithVisible o
        shows w none k = tt
        shows w (some b) k = k.1

        old :
            (w : Weibo) (s : Session)
            → s.client ≡ c
            → Yields (λ u t. t.client ≡ c) (Outcome c WithVisible) (refuse_old e seconds w s)
        old w s h = refuse_old-client e c WithVisible seconds w s h

    browse_of-Shown :
        (friend seconds : ℕ) (key : PostKey) (s : Session)
        → s.client ≡ c
        → Yields (Outcome c WithVisible) (Outcome c WithVisible) (browse_of e friend seconds key s)
    unfolding browse_of
    browse_of-Shown friend seconds key s h =
        let asked = weibo_call (get_weibo key.publisher key.post) in
        let t = record s { trace = asked ∷ s.trace } in
        ground (arith, h, show_of-Shown seconds (e.weibo s.trace asked) t h)

    module _ (friend : ℕ) where
      -- Where the posts come from: a publisher who lets the user look, and who is the user, counts the user as
      -- a friend, or lets strangers look.
      abbrev pub source : Bool
      source =
          friend == c.account_id
          || (not (e.affected [] (is_set_member friend_set friend c.account_id) == 0)
              || says_no stranger_look_weibo_set allow_strangers_look_weibo friend)

      abbrev pub is_stranger : Bool
      is_stranger = not (friend == c.account_id) && not (is_friend c friend)

      abbrev pub ShownOf : List BrowseWeibo → Type 0
      ShownOf shown =
          ((is_nil shown || (source && says_no forbidden_look_weibo_set friend c.account_id))
            ≡ true)
          × Each WithVisible shown
          × ((not is_stranger || leb (length shown) 10) ≡ true)

      abbrev Found : List PostKey → Session → Type 0
      Found keys t = (t.client ≡ c) × ((is_nil keys || source) ≡ true)

      keys_of-Found :
          (last num : ℕ) (s : Session)
          → s.client ≡ c
          → e.affected [] (is_set_member friend_set friend c.account_id) ≡ num
          → Yields {R = Unit {0}} Found (λ r t. ⊥) (keys_of e c.account_id friend last num s)
      unfolding keys_of
      keys_of-Found last num s h p = ground (
        arith,
        h,
        p,
        steady_ok s.trace stranger_look_weibo_set allow_strangers_look_weibo friend,
        steady s.trace stranger_look_weibo_set allow_strangers_look_weibo friend,
      )

      bounded-Shown :
          (seconds : ℕ) (stranger : Bool) (keys : List PostKey) (s : Session)
          → s.client ≡ c
          → Yields {R = Unit {0}}
              (λ shown t. Each WithVisible shown × ((not stranger || leb (length shown) 10) ≡ true))
              (λ r t. ⊥)
              (browse e (browse_of e friend seconds) (if stranger then some 10 else none) keys [] s)
      bounded-Shown seconds true keys s h =
          Yields-weaken (λ shown t k. (k.1, ground (arith, k.2))) (λ r t k. k)
            (browse e (browse_of e friend seconds) (some 10) keys [] s)
            (browse-Shown e c WithVisible (λ r t. ⊥) (browse_of e friend seconds)
              (browse_of-Shown friend seconds) (some 10) keys [] s h tt (omega arith))
      bounded-Shown seconds false keys s h =
          Yields-weaken (λ shown t k. (k.1, refl)) (λ r t k. k)
            (browse e (browse_of e friend seconds) none keys [] s)
            (browse-Shown e c WithVisible (λ r t. ⊥) (browse_of e friend seconds)
              (browse_of-Shown friend seconds) none keys [] s h tt tt)

      browse_if-ShownOf :
          (seconds : ℕ) (allowed : Bool) (keys : List PostKey) (s : Session)
          → says_no forbidden_look_weibo_set friend c.account_id ≡ allowed
          → Found keys s
          → Yields {R = Unit {0}}
              (λ shown t. ShownOf shown)
              (λ r t. ⊥)
              (browse_if e c.account_id friend seconds allowed keys s)
      unfolding browse_if browse
      browse_if-ShownOf seconds false keys s p h = (refl, tt, ground arith)
      browse_if-ShownOf seconds true [] s p h = (refl, tt, ground arith)
      browse_if-ShownOf seconds true (key ∷ keys) s p h =
          subst
            (λ d.
              Yields {R = Unit {0}} (λ shown t. ShownOf shown) (λ r t. ⊥)
                (browse e (browse_of e friend seconds)
                  (bound_for c.account_id friend (is_friend d friend)) (reversed keys (key ∷ [])) []
                  s))
            (sym h.0)
            (Yields-weaken {O = λ shown t. ShownOf shown}
              (λ shown t k. (ground (arith, p, h.1), k.0, k.1)) (λ r t k. k)
              (browse e (browse_of e friend seconds) (if is_stranger then some 10 else none)
                (reversed keys (key ∷ [])) [] s)
              (bounded-Shown seconds is_stranger (reversed keys (key ∷ [])) s h.0))

      looked :
          (keys : List PostKey) (s : Session)
          → Found keys s
          → ShownOf (all_shown (final (look e friend c.account_id keys s)).trace)
      unfolding look
      looked keys s h =
          let me = c.account_id in
          let asked = weibo_call (get_strategy friend) in
          let t1 = asked ∷ s.trace in
          let forbidden = is_set_member forbidden_look_weibo_set friend me in
          let t = record s { trace = forbidden ∷ t1 } in
          let allowed = none_in_set (e.ok t1 forbidden) (e.affected t1 forbidden) in
          let seconds = (strategy_of (number_of (e.id s.trace asked))).1 in
          Yields-then (λ shown t. ShownOf shown) (λ t. ShownOf (all_shown t.trace))
            (browse_if e me friend seconds allowed keys)
            (λ shown.
              weibo_answer (browse_someone shown (strategy_of (number_of (e.id s.trace asked))).0))
            t
            (Yields-weaken (λ shown t k. k) (λ r t k. absurd k)
              (browse_if e me friend seconds allowed keys t)
              (browse_if-ShownOf seconds allowed keys t
                (ground (
                  arith,
                  steady_ok t1 forbidden_look_weibo_set friend me,
                  steady t1 forbidden_look_weibo_set friend me,
                ))
                h))
            (λ shown t k. k)

    -- Where redis answers every question about a set alike while the posts are put together: a user who looks
    -- at the posts of somebody is shown none unless that publisher lets the user look and is the user, counts
    -- the user as a friend, or lets strangers look; whom the user does not know as a friend shows at most ten
    -- posts; the comments that are shown are written by friends or the user, and answer friends or the user.
    pub browse_someone_shows :
        (parsed : Bool) (friend last : ℕ)
        → ShownOf friend (all_shown (c2s_browse_someone_weibo e parsed friend last (start c)).trace)
    unfolding c2s_browse_someone_weibo
    browse_someone_shows false friend last = (refl, tt, ground arith)
    browse_someone_shows true friend last =
        let me = c.account_id in
        let num = e.affected [] (is_set_member friend_set friend me) in
        let asked = record (start c) { trace = is_set_member friend_set friend me ∷ [] } in
        let P : Session → Type 0 = λ t. ShownOf friend (all_shown t.trace) in
        Yields-then (Found friend) P (keys_of e me friend last num) (look e friend me) asked
          (Yields-weaken (λ keys t k. k) (λ r t k. absurd k) (keys_of e me friend last num asked)
            (keys_of-Found friend last num asked refl refl))
          (λ keys t k. looked friend keys t k)

-- ===== src/Client/Weibo/Browsing/Shown.antt =====
-- Whose posts a user who looks at the posts of everybody is shown (weibo.go).
use instant_message.Prelude.{
  ap, sym, subst, ℕ, ◌≡◌, ◌≤◌, refl, Bool, true, false, not, ◌&&◌, ◌||◌, Option, none, some, List,
  [], ◌∷◌, ◌==◌, length, arith,
}
use instant_message.Client.{Client, is_friend, is_black_list}
use instant_message.Client.WeiboMessage.{
  Fetched, missing, garbled, stored, Weibo, BrowseWeibo, PostKey, browse_all, get_weibo,
}
use instant_message.Client.Session.{
  Call, Env, Session, start, Key, when, ◌>>=◌, is_set_member, black_list_set, dont_look_weibo_set,
  forbidden_look_weibo_set, weibo_call,
}
use instant_message.Client.Flows.{Yields, Yields-bind, Yields-weaken, Yields-then}
use instant_message.Client.Weibo.{weibo_answer}
use instant_message.Client.Weibo.Settings.{none_in_set}
use instant_message.Client.Weibo.Browsing.Loop.{
  Each, IsVisible, IfShown, Outcome, all_shown, browse-Shown, Detailed, detail-Detailed,
}
use instant_message.Client.Weibo.Browsing.{
  page, reversed, check_publisher, detail, show_any, browse_any, browse, c2s_browse_all_weibo,
}

-- The redis that answers alike throughout, and what it and the client say of a publisher.
module _ (e : Env)
    (steady_ok : (t : List Call) (key : Key) (a b : ℕ)
      → e.ok t (is_set_member key a b) ≡ e.ok [] (is_set_member key a b))
    (steady : (t : List Call) (key : Key) (a b : ℕ)
      → e.affected t (is_set_member key a b) ≡ e.affected [] (is_set_member key a b)) where
  abbrev says_no : Key → (owner member : ℕ) → Bool
  says_no key a b =
      none_in_set (e.ok [] (is_set_member key a b)) (e.affected [] (is_set_member key a b))

  abbrev lists : (owner member : ℕ) → Bool
  lists a b =
      e.ok [] (is_set_member black_list_set a b)
      && e.affected [] (is_set_member black_list_set a b) == 1

  abbrev may_see : Client → (publisher : ℕ) → Bool
  may_see c p =
      is_friend c p
      && (not (is_black_list c p)
          && (not (lists p c.account_id)
              && (says_no dont_look_weibo_set c.account_id p
                  && says_no forbidden_look_weibo_set p c.account_id)))

  module _ (c : Client) where
    abbrev Passed : (Weibo) → Unit {0} → Session → Type 0
    Passed w u t = (t.client ≡ c) × (may_see c w.publisher_id ≡ true)

    abbrev Skipped : Option BrowseWeibo → Session → Type 0
    Skipped o t = (t.client ≡ c) × (o ≡ none)

    check_publisher-Passed :
        (w : Weibo) (s : Session)
        → s.client ≡ c
        → Yields (Passed w) Skipped (check_publisher e c.account_id w s)
    unfolding check_publisher
    check_publisher-Passed w s h =
        let p = w.publisher_id in
        let me = c.account_id in
        let t1 = is_set_member black_list_set p me ∷ s.trace in
        let t2 = is_set_member dont_look_weibo_set me p ∷ t1 in
        ground (
          arith,
          h,
          steady_ok s.trace black_list_set p me,
          steady s.trace black_list_set p me,
          steady_ok t1 dont_look_weibo_set me p,
          steady t1 dont_look_weibo_set me p,
          steady_ok t2 forbidden_look_weibo_set p me,
          steady t2 forbidden_look_weibo_set p me,
        )

    -- A post of the user, or of somebody whose posts the user may see, with comments that the user may see.
    abbrev pub ShownToUser : BrowseWeibo → Type 0
    ShownToUser b =
        ((b.weibo.publisher_id == c.account_id || may_see c b.weibo.publisher_id) ≡ true)
        × Each (IsVisible c) b.replay_weibo

    show_stored :
        (w : Weibo) (s : Session)
        → s.client ≡ c
        → (w.publisher_id == c.account_id || may_see c w.publisher_id) ≡ true
        → Yields (Outcome c ShownToUser) (Outcome c ShownToUser) (detail e (λ c ids. ids) w s)
    show_stored w s h seen =
        Yields-weaken (λ o t k. (k.0, shows o k.1)) (λ o t k. (k.0, shows o k.1))
          (detail e (λ c ids. ids) w s) (detail-Detailed e c (λ c ids. ids) w s h)
      where
        shows : (o : Option BrowseWeibo) → IfShown (Detailed e c w) o → IfShown ShownToUser o
        shows none k = tt
        shows (some b) k = ground (arith, k, seen)

    checked :
        (w : Weibo) (s : Session) (mine : Bool)
        → (w.publisher_id == c.account_id) ≡ mine
        → s.client ≡ c
        → Yields
            (λ u t.
              (t.client ≡ c)
              × ((w.publisher_id == c.account_id || may_see c w.publisher_id) ≡ true))
            (Outcome c ShownToUser)
            (when (not mine) (check_publisher e c.account_id w) s)
    checked w s true p h = (h, ground (arith, p))
    checked w s false p h =
        Yields-weaken (λ u t k. (k.0, ground (arith, p, k.1))) (λ o t k. (k.0, skips o k.1))
          (check_publisher e c.account_id w s) (check_publisher-Passed w s h)
      where
        skips : (o : Option BrowseWeibo) → o ≡ none → IfShown ShownToUser o
        skips none k = tt
        skips (some b) k = absurd (ground (arith, k))

    show_any-Shown :
        (found : Fetched) (s : Session)
        → s.client ≡ c
        → Yields (Outcome c ShownToUser) (Outcome c ShownToUser) (show_any e found s)
    unfolding show_any
    show_any-Shown missing s h = (h, tt)
    show_any-Shown garbled s h = (h, tt)
    show_any-Shown (stored w) s h =
        subst
          (λ me. Yields (Outcome c ShownToUser) (Outcome c ShownToUser) (
            (when (not (w.publisher_id == me)) (check_publisher e me w) >>= λ u.
            detail e (λ c ids. ids) w)
              s))
          (ap (λ d. d.account_id) (sym h))
          (Yields-bind (Outcome c ShownToUser) _ (Outcome c ShownToUser)
            (when (not (w.publisher_id == c.account_id)) (check_publisher e c.account_id w))
            (λ u. detail e (λ c ids. ids) w) s (checked w s (w.publisher_id == c.account_id) refl h)
            (λ u t k. show_stored w t k.0 k.1))

    browse_any-Shown :
        (key : PostKey) (s : Session)
        → s.client ≡ c
        → Yields (Outcome c ShownToUser) (Outcome c ShownToUser) (browse_any e key s)
    unfolding browse_any
    browse_any-Shown key s h =
        let asked = weibo_call (get_weibo key.publisher key.post) in
        show_any-Shown (e.weibo s.trace asked) (record s { trace = asked ∷ s.trace }) h

    -- Where redis answers every question about a set alike while the posts are put together: a user who looks
    -- at the posts of everybody is shown at most twelve, and each is the user's own or that of a friend who is
    -- on neither black list, whom the user looks at and who lets the user look; the comments that are shown
    -- are written by friends or the user, and answer friends or the user.
    pub browse_all_shows :
        (parsed : Bool) (last : ℕ)
        → let shown = all_shown (c2s_browse_all_weibo e parsed last (start c)).trace in
          Each ShownToUser shown × (length shown ≤ 12)
    unfolding c2s_browse_all_weibo
    browse_all_shows false last = (tt, omega arith)
    browse_all_shows true last =
        let asked = page e c.account_id last in
        let keys = reversed (e.posts [] asked) [] in
        let P : Session → Type 0 =
          λ t. Each ShownToUser (all_shown t.trace) × (length (all_shown t.trace) ≤ 12) in
        Yields-then (λ shown t. (t.client ≡ c) × Each ShownToUser shown × (length shown ≤ 12)) P
          (browse e (browse_any e) (some 12) keys []) (λ shown. weibo_answer (browse_all shown))
          (record (start c) { trace = asked ∷ [] })
          (browse-Shown e c ShownToUser (λ r. P) (browse_any e) browse_any-Shown (some 12) keys []
            (record (start c) { trace = asked ∷ [] }) refl tt (omega arith))
          (λ shown t k. (k.1, k.2))

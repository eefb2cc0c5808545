-- ===== src/Client/Weibo/Browsing/Loop.antt =====
-- The loops over posts (weibo.go): what they keep of the posts that they show.
use instant_message.Prelude.{
  ℕ, ◌≡◌, ◌≤◌, ◌<◌, Bool, true, false, Option, none, some, List, [], ◌∷◌, ◌++◌, leb, length,
  length-append, arith,
}
use instant_message.Client.{Client}
use instant_message.Client.WeiboMessage.{
  Weibo, BrowseWeibo, ReplyWeibo, PostKey, browse_all, browse_someone, get_likers, get_replies,
}
use instant_message.Client.Session.{
  Call, Env, Session, M, send, weibo_reply, scoped, pure, weibo_call,
}
use instant_message.Client.Flows.{Yields, Yields-bind, Yields-scoped, Yields-choose}
use instant_message.Client.Weibo.{is_near, visible_replies, visible_of}
use instant_message.Client.Weibo.Browsing.{detail, browse, refuse_old, with_one, stops}

abbrev pub is_nil : {A : Type 0} → List A → Bool
is_nil [] = true
is_nil (x ∷ xs) = false

abbrev pub Each : {A : Type 0} → (A → Type 0) → List A → Type 0
Each Q [] = Unit
Each Q (x ∷ xs) = Q x × Each Q xs

pub Each-append :
    {A : Type 0} (Q : A → Type 0) (xs ys : List A) → Each Q xs → Each Q ys → Each Q (xs ++ ys)
Each-append Q [] ys h k = k
Each-append Q (x ∷ xs) ys h k = (h.0, Each-append Q xs ys h.1 k)

-- Both the author of a comment and who is answered are near to the user.
abbrev pub IsVisible : Client → ReplyWeibo → Type 0
IsVisible c r = (is_near c r.commentator_id ≡ true) × (is_near c r.be_commentator_id ≡ true)

visible_replies-IsVisible :
    (c : Client) (rs : List (Option ReplyWeibo)) → Each (IsVisible c) (visible_replies c rs)
visible_replies-IsVisible c [] = tt
visible_replies-IsVisible c (none ∷ rs) = visible_replies-IsVisible c rs
visible_replies-IsVisible c (some r ∷ rs) = ground (arith, visible_replies-IsVisible c rs)

abbrev AllVisible : Client → Option (List ReplyWeibo) → Type 0
AllVisible c none = Unit
AllVisible c (some rs) = Each (IsVisible c) rs

visible_of-IsVisible :
    (c : Client) (rows : Option (List (Option ReplyWeibo))) → AllVisible c (visible_of c rows)
visible_of-IsVisible c none = tt
visible_of-IsVisible c (some rs) = visible_replies-IsVisible c rs

-- The posts of the answer.
abbrev pub all_shown : List Call → List BrowseWeibo
all_shown (send (weibo_reply (browse_all shown)) ∷ t) = shown
all_shown (send (weibo_reply (browse_someone shown strategy)) ∷ t) = shown
all_shown _ = []

-- What a post that is shown satisfies, where one is.
abbrev pub IfShown : (BrowseWeibo → Type 0) → Option BrowseWeibo → Type 0
IfShown Q none = Unit
IfShown Q (some b) = Q b

abbrev pub Outcome : Client → (BrowseWeibo → Type 0) → Option BrowseWeibo → Session → Type 0
Outcome c Q b t = (t.client ≡ c) × IfShown Q b

pub refuse_old-client :
    (e : Env) (c : Client) (Q : BrowseWeibo → Type 0) (seconds : ℕ) (w : Weibo) (s : Session)
    → s.client ≡ c
    → Yields (λ u t. t.client ≡ c) (Outcome c Q) (refuse_old e seconds w s)
unfolding refuse_old
refuse_old-client e c Q seconds w s h = ground (arith, h)

-- The loop: what each post satisfies all of them do, and the bound is kept.
module _ (e : Env) (c : Client) (Q : BrowseWeibo → Type 0) {R : Type 0}
    (D : R → Session → Type 0) where
  abbrev pub Shown : (bound : Option ℕ) → List BrowseWeibo → Session → Type 0
  Shown none shown t = (t.client ≡ c) × Each Q shown
  Shown (some n) shown t = (t.client ≡ c) × Each Q shown × (length shown ≤ n)

  abbrev pub Below : (bound : Option ℕ) → List BrowseWeibo → Type 0
  Below none shown = Unit
  Below (some n) shown = length shown < n

  with_one-Each :
      (b : Option BrowseWeibo) (shown : List BrowseWeibo)
      → IfShown Q b
      → Each Q shown
      → Each Q (with_one b shown)
  with_one-Each none shown h k = k
  with_one-Each (some b) shown h k = Each-append Q shown (b ∷ []) k (h, tt)

  module _ (one : PostKey → M (Option BrowseWeibo) (Option BrowseWeibo))
      (shows : (key : PostKey) (s : Session)
        → s.client ≡ c
        → Yields (Outcome c Q) (Outcome c Q) (one key s)) where
    abbrev pub Holds : (bound : Option ℕ) → List PostKey → Type 0
    Holds bound keys =
        (shown : List BrowseWeibo) (s : Session)
        → s.client ≡ c
        → Each Q shown
        → Below bound shown
        → Yields (Shown bound) D (browse e one bound keys shown s)

    abbrev next_round :
        (bound : Option ℕ)
        → List PostKey
        → List BrowseWeibo
        → Option BrowseWeibo
        → M R (List BrowseWeibo)
    next_round bound keys shown b = elim (stops bound b (with_one b shown)) [
      | true ↦ pure (with_one b shown)
      | false ↦ browse e one bound keys (with_one b shown)
    ]

    next_round-Shown :
        (bound : Option ℕ) (keys : List PostKey)
        → Holds bound keys
        → (shown : List BrowseWeibo) (b : Option BrowseWeibo) (t : Session) → Each Q shown
        → Below bound shown
        → Outcome c Q b t
        → Yields (Shown bound) D (next_round bound keys shown b t)
    next_round-Shown none keys rest shown b t q l o =
        rest (with_one b shown) t o.0 (with_one-Each b shown o.1 q) tt
    next_round-Shown (some n) keys rest shown none t q l o = rest shown t o.0 q l
    next_round-Shown (some n) keys rest shown (some b) t q l o =
        let longer = shown ++ b ∷ [] in
        let each = with_one-Each (some b) shown o.1 q in
        Yields-choose (Shown (some n)) D (leb n (length longer)) (pure longer)
          (browse e one (some n) keys longer) t
          (λ full. (o.0, each, omega (arith, l, length-append shown (b ∷ []))))
          (λ left. rest longer t o.0 each (ground (arith, left)))

    pub browse-Shown : (bound : Option ℕ) (keys : List PostKey) → Holds bound keys
    unfolding browse
    browse-Shown none [] shown s h q l = (h, q)
    browse-Shown (some n) [] shown s h q l = (h, q, omega (arith, l))
    browse-Shown bound (key ∷ keys) shown s h q l =
        Yields-bind D (Outcome c Q) (Shown bound) (scoped (one key)) (next_round bound keys shown) s
          (Yields-scoped R (Outcome c Q) D (one key s) (shows key s h))
          (λ b t. next_round-Shown bound keys (browse-Shown bound keys) shown b t q l)

module _ (e : Env) (c : Client) where
  -- A post that is shown with its comments.
  abbrev pub Detailed : Weibo → BrowseWeibo → Type 0
  Detailed w b = (b.weibo ≡ w) × Each (IsVisible c) b.replay_weibo

  pub detail-Detailed :
      (likers_of : Client → List ℕ → List ℕ) (w : Weibo) (s : Session)
      → s.client ≡ c
      → Yields (Outcome c (Detailed w)) (Outcome c (Detailed w)) (detail e likers_of w s)
  unfolding detail
  detail-Detailed likers_of w s h =
      let asked = weibo_call (get_likers w.publisher_id w.weibo_id) ∷ s.trace in
      let rows = e.replies asked (weibo_call (get_replies w.publisher_id w.weibo_id)) in
      ground (arith, h, visible_of-IsVisible c rows)

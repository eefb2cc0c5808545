-- ===== src/Client/Account/Searching/Shown.antt =====
-- Whose pictures a search shows (account.go).
use instant_message.Prelude.{
  ap, subst, sym, ℕ, ◌≡◌, refl, String, Bool, true, false, not, ◌&&◌, ◌||◌, ◌==◌, Option, none,
  some, List, [], ◌∷◌, arith, if◌then◌else◌,
}
use instant_message.Client.{Client, is_friend}
use instant_message.Client.AccountMessage.{UserBriefInfo, PostBrief, find_user_ack}
use instant_message.Client.Session.{
  M, ◌>>=◌, Call, Env, Session, final, Key, start, send, account_reply, is_set_member,
  black_list_set, forbidden_look_weibo_set, stranger_look_weibo_set,
}
use instant_message.Client.Flows.{Yields, Yields-then}
use instant_message.Client.Weibo.Settings.{none_in_set, allow_strangers_look_weibo}
use instant_message.Client.Account.{account_answer}
use instant_message.Client.Account.Searching.{
  collect_urls, find_user_by_key, find_user_by_phone_num, find_user_by_user_name,
  get_someone_weibo_rds, look_bounds, show_user, c2s_find_user,
}

-- The addresses that the user is sent with the account.
abbrev pub urls_shown : (account : ℕ) → List Call → List String
urls_shown account (send (account_reply (find_user_ack info urls)) ∷ cs) =
    if info.account_id == account then urls else []
urls_shown account cs = []

module _ (e : Env) where
  abbrev pub says_no : Key → (owner member : ℕ) → Bool
  says_no key a b =
      none_in_set (e.ok [] (is_set_member key a b)) (e.affected [] (is_set_member key a b))

  abbrev pub unlisted : (owner member : ℕ) → Bool
  unlisted a b =
      e.ok [] (is_set_member black_list_set a b)
      && not (e.affected [] (is_set_member black_list_set a b) == 1)

  -- The user is the publisher, or a friend whom the publisher has not listed and lets look, or a stranger
  -- where the publisher lets strangers look.
  abbrev pub may_look : Client → (publisher : ℕ) → Bool
  may_look c p =
      c.account_id == p
      || (if is_friend c p
          then unlisted p c.account_id && says_no forbidden_look_weibo_set p c.account_id
          else says_no stranger_look_weibo_set allow_strangers_look_weibo p)

module _ (e : Env) (c : Client) (p : ℕ)
    (steady_ok : (t : List Call) (key : Key) (a b : ℕ)
      → e.ok t (is_set_member key a b) ≡ e.ok [] (is_set_member key a b))
    (steady : (t : List Call) (key : Key) (a b : ℕ)
      → e.affected t (is_set_member key a b) ≡ e.affected [] (is_set_member key a b))
    (denied : may_look e c p ≡ false) where
  look_bounds-Denied :
      (t : Session)
      → t.client ≡ c
      → Yields (λ b u. true ≡ false) (λ posts u. posts ≡ []) (look_bounds e c.account_id p t)
  unfolding look_bounds
  look_bounds-Denied t h =
      let me = c.account_id in
      let listed : Call = is_set_member black_list_set p me in
      let t1 : List Call = listed ∷ t.trace in
      ground (
        arith,
        h,
        denied,
        steady_ok t.trace black_list_set p me,
        steady t.trace black_list_set p me,
        steady_ok t1 forbidden_look_weibo_set p me,
        steady t1 forbidden_look_weibo_set p me,
        steady_ok t.trace stranger_look_weibo_set allow_strangers_look_weibo p,
        steady t.trace stranger_look_weibo_set allow_strangers_look_weibo p,
      )

  abbrev Unseen : Session → Type 0
  Unseen u = urls_shown p u.trace ≡ []

  find-client :
      (key : String) (t : Session)
      → t.client ≡ c
      → Yields {R = Unit {0}} (λ info u. u.client ≡ c) (λ r. Unseen) (find_user_by_key e key t)
  unfolding find_user_by_key find_user_by_phone_num find_user_by_user_name
  find-client key t h = ground (arith, h)

  get_someone-Denied :
      (t : Session)
      → t.client ≡ c
      → Yields {R = Unit {0}}
          (λ posts u. posts ≡ [])
          (λ r. Unseen)
          (get_someone_weibo_rds e c.account_id p 0 0 t)
  unfolding get_someone_weibo_rds
  get_someone-Denied t h = ground (arith, look_bounds-Denied t h)

  get_someone-Goes :
      (q : ℕ) (t : Session)
      → Yields {R = Unit {0}}
          (λ posts u. Unit {0})
          (λ r. Unseen)
          (get_someone_weibo_rds e c.account_id q 0 0 t)
  unfolding get_someone_weibo_rds
  get_someone-Goes q t = ground arith

  abbrev answer_with : UserBriefInfo → List (Option PostBrief) → M (Unit {0}) (Unit {0})
  answer_with info posts = account_answer (find_user_ack info (collect_urls [] posts))

  shown_posts :
      (info : UserBriefInfo) (t : Session)
      → t.client ≡ c
      → (mine : Bool) → (info.account_id == p) ≡ mine
      → Unseen (
          final ((get_someone_weibo_rds e c.account_id info.account_id 0 0 >>= answer_with info) t))
  shown_posts info t h true eq =
      let same : info.account_id ≡ p = ground (arith, eq) in
      Yields-then (λ posts u. posts ≡ []) Unseen
        (get_someone_weibo_rds e c.account_id info.account_id 0 0) (answer_with info) t
        (subst
          (λ q.
            Yields {R = Unit {0}} (λ posts u. posts ≡ []) (λ r. Unseen)
              (get_someone_weibo_rds e c.account_id q 0 0 t))
          (sym same) (get_someone-Denied t h))
        (λ posts u none_left. rw none_left (ground arith))
  shown_posts info t h false eq =
      Yields-then (λ posts u. Unit {0}) Unseen
        (get_someone_weibo_rds e c.account_id info.account_id 0 0) (answer_with info) t
        (get_someone-Goes info.account_id t) (λ posts u k. ground (arith, eq))

  show_user-Unseen :
      (info : Option UserBriefInfo) (t : Session)
      → t.client ≡ c
      → Unseen (final (show_user e info t))
  unfolding show_user
  show_user-Unseen none t h = refl
  show_user-Unseen (some info) t h =
      subst
        (λ me.
          Unseen (final ((get_someone_weibo_rds e me info.account_id 0 0 >>= answer_with info) t)))
        (sym (ap (λ d. d.account_id) h)) (shown_posts info t h (info.account_id == p) refl)

  search-Unseen :
      (key : String) → Unseen (final ((find_user_by_key e key >>= show_user e) (start c)))
  search-Unseen key =
      Yields-then (λ info u. u.client ≡ c) Unseen (find_user_by_key e key) (show_user e) (start c)
        (find-client key (start c) refl) (λ info u k. show_user-Unseen info u k)

  -- Where redis answers every question about a set alike throughout, a search shows no picture of an account
  -- whose posts the user may not see: one that is not the user's own, and of a friend who has listed the user or
  -- does not let the user look, or of a stranger who does not let strangers look.
  pub find_user_hides :
      (parsed : Bool) (key : String)
      → urls_shown p (c2s_find_user e parsed key (start c)).trace ≡ []
  unfolding c2s_find_user
  find_user_hides false key = refl
  find_user_hides true key = ground (arith, search-Unseen key)

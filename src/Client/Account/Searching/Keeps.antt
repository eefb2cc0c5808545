-- ===== src/Client/Account/Searching/Keeps.antt =====
-- A search leaves the client as it was (account.go).
use instant_message.Prelude.{
  ℕ, ◌≡◌, refl, String, Bool, true, false, ◌==◌, length, Option, none, some, List, [], ◌∷◌, ◌++◌,
  arith,
}
use instant_message.Client.{Client}
use instant_message.Client.WeiboMessage.{get_weibo}
use instant_message.Client.AccountMessage.{UserBriefInfo, PostBrief, get_post_ids}
use instant_message.Client.Session.{
  Call, Env, Session, Flow, next, ask, account_call, ◌>>=◌, M, weibo_call,
}
use instant_message.Client.Flows.{Within, Within-then, Yields-bind, Yields-scoped}
use instant_message.Client.Account.Searching.{
  newer, given_ids, is_past, find_user_by_key, find_user_by_phone_num, find_user_by_user_name,
  get_someone_weibo_rds, look_bounds, read_posts, show_user, c2s_find_user,
}

module _ (e : Env) (c : Client) where
  abbrev Same : Session → Type 0
  Same u = u.client ≡ c

  module _ (publisher last seconds enough : ℕ) where
    abbrev reader :
        List ℕ → List (Option PostBrief) → M (List (Option PostBrief)) (List (Option PostBrief))
    reader = read_posts e publisher last seconds enough

    read_posts-client :
        (ids : List ℕ) (posts : List (Option PostBrief)) (s : Session)
        → s.client ≡ c
        → Within Same (reader ids posts s)
    unfolding read_posts
    read_posts-client [] posts s h = h
    read_posts-client (id ∷ ids) posts s h =
        let asked : Call = weibo_call (get_weibo publisher id) in
        let t : Session = record s { trace = asked ∷ s.trace } in
        elim (is_past last seconds id)
          as (λ b.
            Within Same (elim b as (λ x. Flow (List (Option PostBrief)) (List (Option PostBrief))) [
              | true ↦ reader ids posts s
              | false ↦ elim (e.post_brief s.trace asked) [
                | none ↦ reader ids posts t
                | some post ↦ elim (length (posts ++ post ∷ []) == enough) [
                  | true ↦ next (posts ++ post ∷ []) t
                  | false ↦ reader ids (posts ++ post ∷ []) t
                ]
              ]
            ])) [
              | true ↦ read_posts-client ids posts s h
              | false ↦
                  found (e.post_brief s.trace asked) t h (read_posts-client ids posts t h)
                    (λ post. read_posts-client ids (posts ++ post ∷ []) t h)
            ]
      where
        found :
            (o : Option (Option PostBrief)) (t : Session)
            → t.client ≡ c
            → Within Same (reader ids posts t)
            → ((post : Option PostBrief) → Within Same (reader ids (posts ++ post ∷ []) t))
            → Within Same
                (elim o as (λ x. Flow (List (Option PostBrief)) (List (Option PostBrief))) [
                  | none ↦ reader ids posts t
                  | some post ↦ elim (length (posts ++ post ∷ []) == enough) [
                    | true ↦ next (posts ++ post ∷ []) t
                    | false ↦ reader ids (posts ++ post ∷ []) t
                  ]
                ])
        found none t k go add = go
        found (some post) t k go add = ground (arith, k, add post)

  look_bounds-client :
      (me publisher : ℕ) (s : Session) → s.client ≡ c → Within Same (look_bounds e me publisher s)
  unfolding look_bounds
  look_bounds-client me publisher s h = ground (arith, h)

  abbrev after_bounds :
      (publisher current last : ℕ) → ℕ × ℕ → M (List (Option PostBrief)) (List (Option PostBrief))
  after_bounds publisher current last x =
      ask e.set_ids (account_call (get_post_ids publisher)) >>= λ found.
      given_ids e found >>= λ ids.
      read_posts e publisher last x.1 x.0 (e.back_sorted (newer current ids)) []

  after_bounds-client :
      (publisher current last : ℕ) (x : ℕ × ℕ) (s : Session)
      → s.client ≡ c
      → Within Same (after_bounds publisher current last x s)
  after_bounds-client publisher current last x s h =
      given (e.set_ids s.trace (account_call (get_post_ids publisher)))
    where
      given :
          (found : Option (List ℕ))
          → Within Same (
              (given_ids e found >>= λ ids.
              read_posts e publisher last x.1 x.0 (e.back_sorted (newer current ids)) [])
                (record s { trace = account_call (get_post_ids publisher) ∷ s.trace }))
      given none = h
      given (some ids) =
          read_posts-client publisher last x.1 x.0 (e.back_sorted (newer current ids)) []
            (record s { trace = account_call (get_post_ids publisher) ∷ s.trace }) h

  get_someone-client :
      (me publisher current last : ℕ) (s : Session)
      → s.client ≡ c
      → Within {R = Unit {0}} Same (get_someone_weibo_rds e me publisher current last s)
  unfolding get_someone_weibo_rds
  get_someone-client me publisher current last s h =
      Yields-scoped (Unit {0}) (λ posts. Same) (λ r. Same)
        ((look_bounds e me publisher >>= after_bounds publisher current last) s)
        (Yields-bind (λ x. Same) (λ posts. Same) (λ posts. Same) (look_bounds e me publisher)
          (after_bounds publisher current last) s (look_bounds-client me publisher s h)
          (λ x t k. after_bounds-client publisher current last x t k))

  show_user-client :
      (info : Option UserBriefInfo) (s : Session) → s.client ≡ c → Within Same (show_user e info s)
  unfolding show_user
  show_user-client none s h = h
  show_user-client (some info) s h =
      ground (arith, h, get_someone-client s.client.account_id info.account_id 0 0 s h)

  find-client :
      (key : String) (s : Session)
      → s.client ≡ c
      → Within {R = Unit {0}} Same (find_user_by_key e key s)
  unfolding find_user_by_key find_user_by_phone_num find_user_by_user_name
  find-client key s h = ground (arith, h)

pub find_user-client :
    (e : Env) (parsed : Bool) (key : String) (s : Session)
    → (c2s_find_user e parsed key s).client ≡ s.client
unfolding c2s_find_user
find_user-client e false key s = refl
find_user-client e true key s = ground (
  arith,
  Within-then (Same e s.client) (find_user_by_key e key) (show_user e) s
      (find-client e s.client key s refl) (λ info t k. show_user-client e s.client info t k),
)

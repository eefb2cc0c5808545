-- ===== src/Client/Weibo/Browsing.antt =====
-- msg-server/client/weibo.go: `C2SBrowseSomeoneWeibo` and `C2SBrowseAllWeibo`. The sorted set of posts gives
-- nothing where redis fails; what it gives is shown from its end.
pub mod Loop
pub mod Shown
pub mod Someone
pub mod Keeps
use instant_message.Prelude.{
  ℕ, suc, ◌+◌, ◌*◌, ◌-◌, ◌%◌, ◌^◌, Bool, true, false, not, ◌&&◌, ◌||◌, ◌==◌, leb, signed_ltb,
  length, Option, none, some, List, [], ◌∷◌, ◌++◌, if◌then◌else◌,
}
use instant_message.Client.{Client, is_friend, is_black_list}
use instant_message.Client.WeiboMessage.{
  Weibo, ReplyWeibo, BrowseWeibo, PostKey, Fetched, missing, garbled, stored, Strategy,
  unmarshal_browse_someone, browse_someone, browse_all, posts_after, posts_before, get_weibo,
  get_likers,
}
use instant_message.Client.Session.{
  Call, Env, Session, Key, M, ◌>>=◌, ◌>>◌, pure, stop, when, gets, call, ask, read_now, scoped, run,
  is_set_member, friend_set, black_list_set, weibo_call,
}
use instant_message.Client.Weibo.{
  weibo_reject, weibo_answer, get_weibo_rds, get_reply_weibo_rds, is_near,
}
use instant_message.Client.Weibo.Settings.{
  does_look_friend_weibo, does_allow_friend_look, does_allow_stranger_look,
  get_friend_look_strategy,
}

abbrev pub reversed : List PostKey → List PostKey → List PostKey
reversed [] done = done
reversed (k ∷ ks) done = reversed ks (k ∷ done)

abbrev one_in_set : Bool → (num : ℕ) → Bool
one_in_set ok num = if ok then num == 1 else false

-- `WeiboId < now - seconds * 1000000`, in int64.
abbrev pub is_too_old : (weibo_id now seconds : ℕ) → Bool
is_too_old id now seconds = signed_ltb id ((now + (2 ^ 64 - seconds * 1000000)) % 2 ^ 64)

abbrev pub near_likers : Client → List ℕ → List ℕ
near_likers c [] = []
near_likers c (id ∷ ids) = if is_near c id then id ∷ near_likers c ids else near_likers c ids

-- `continue`.
abbrev Skip : Type 0 → Type 0
Skip A = M (Option BrowseWeibo) A

abbrev skip : {A : Type 0} → Skip A
skip = stop none

abbrev given : {A : Type 0} → Option A → Skip A
given none = skip
given (some a) = pure a

abbrev pub with_one : Option BrowseWeibo → List BrowseWeibo → List BrowseWeibo
with_one none shown = shown
with_one (some b) shown = shown ++ b ∷ []

abbrev pub stops : Option ℕ → Option BrowseWeibo → List BrowseWeibo → Bool
stops none b shown = false
stops (some n) none shown = false
stops (some n) (some b) shown = leb n (length shown)

abbrev pub bound_for : (me friend : ℕ) → (is_friend : Bool) → Option ℕ
bound_for me friend near = if not (friend == me) && not near then some 10 else none

module _ (e : Env) where
  -- `IsSomeoneInOtherBlackList`, where an error counts as no.
  abbrev pub is_listed_by : {R : Type 0} → (other someone : ℕ) → M R Bool
  is_listed_by other someone =
      ask (λ t c. one_in_set (e.ok t c) (e.affected t c))
        (is_set_member black_list_set other someone)

  pub refuse_old : (seconds : ℕ) → Weibo → Skip (Unit {0})
  refuse_old seconds w =
      when (not (seconds == 0)) do now ← read_now e; when (is_too_old w.weibo_id now seconds) skip

  -- A post of somebody else is shown to a friend who is on neither black list, whom neither side has
  -- excluded, as far back as the publisher allows.
  pub check_publisher : (me : ℕ) → Weibo → Skip (Unit {0})
  unfolding refuse_old
  check_publisher me w = do
    friend ← gets (λ c. is_friend c w.publisher_id)
    when (not friend) skip
    black ← gets (λ c. is_black_list c w.publisher_id)
    when black skip
    listed ← is_listed_by w.publisher_id me
    when listed skip
    looks ← does_look_friend_weibo e me w.publisher_id
    when (not looks) skip
    allowed ← does_allow_friend_look e w.publisher_id me
    when (not allowed) skip
    (strategy, seconds) ← get_friend_look_strategy e w.publisher_id
    refuse_old seconds w

  pub detail : (likers_of : Client → List ℕ → List ℕ) → Weibo → Skip (Option BrowseWeibo)
  detail likers_of w = do
    found ← ask e.set_ids (weibo_call (get_likers w.publisher_id w.weibo_id))
    likers ← given found
    kept ← gets (λ c. likers_of c likers)
    rows ← get_reply_weibo_rds e w
    replies ← given rows
    let b : BrowseWeibo = record { weibo = w; liker_id = kept; replay_weibo = replies }
    pure (some b)

  pub show_any : Fetched → Skip (Option BrowseWeibo)
  unfolding check_publisher detail
  show_any missing = skip
  show_any garbled = skip
  show_any (stored w) = do
    me ← gets (λ c. c.account_id)
    when (not (w.publisher_id == me)) (check_publisher me w)
    detail (λ c ids. ids) w

  pub browse_any : PostKey → Skip (Option BrowseWeibo)
  unfolding show_any
  browse_any key = do found ← get_weibo_rds e key.publisher key.post; show_any found

  pub show_of : (seconds : ℕ) → Fetched → Skip (Option BrowseWeibo)
  unfolding refuse_old detail
  show_of seconds missing = skip
  show_of seconds garbled = skip
  show_of seconds (stored w) = do refuse_old seconds w; detail near_likers w

  pub browse_of : (friend seconds : ℕ) → PostKey → Skip (Option BrowseWeibo)
  unfolding show_of
  browse_of friend seconds key = do
    found ← get_weibo_rds e key.publisher key.post
    when (not (key.publisher == friend)) skip
    show_of seconds found

  -- The loops stop when the bound is reached by the post that was added last.
  pub browse :
      {R : Type 0}
      → (one : PostKey → Skip (Option BrowseWeibo)) → (bound : Option ℕ) → List PostKey
      → List BrowseWeibo
      → M R (List BrowseWeibo)
  browse one bound [] shown = pure shown
  browse one bound (key ∷ keys) shown = do
    b ← scoped (one key)
    (elim (stops bound b (with_one b shown)) [
      | true ↦ pure (with_one b shown)
      | false ↦ browse one bound keys (with_one b shown)
    ])

  -- All posts after the time stamp 0, or those before another one.
  abbrev pub page : (owner last : ℕ) → Call
  page owner last =
      if last == 0
      then weibo_call (posts_after owner last)
      else weibo_call (posts_before owner last)

  unfoldable pub c2s_browse_all_weibo : (parsed : Bool) → (last : ℕ) → Session → Session
  unfolding browse_any browse
  c2s_browse_all_weibo parsed last = run do
    when (not parsed) (stop tt)
    me ← gets (λ c. c.account_id)
    keys ← ask e.posts (page me last)
    shown ← browse browse_any (some 12) (reversed keys []) []
    weibo_answer (browse_all shown)

  -- A stranger sees the posts after the time stamp where the publisher lets strangers look.
  pub keys_for_stranger : {R : Type 0} → (friend last : ℕ) → (allowed : Bool) → M R (List PostKey)
  keys_for_stranger friend last false = pure []
  keys_for_stranger friend last true = ask e.posts (weibo_call (posts_after friend last))

  -- `is_friend` of redis: that the publisher counts the user as a friend.
  pub keys_of : {R : Type 0} → (me friend last num : ℕ) → M R (List PostKey)
  unfolding keys_for_stranger
  keys_of me friend last num s = elim (num == 0 && not (friend == me)) [
    | true ↦
        (does_allow_stranger_look e friend >>= λ allowed. keys_for_stranger friend last allowed) s
    | false ↦ ask e.posts (page friend last) s
  ]

  pub browse_if :
      (me friend seconds : ℕ) → (allowed : Bool) → List PostKey → M (Unit {0}) (List BrowseWeibo)
  unfolding browse_of browse
  browse_if me friend seconds false keys = pure []
  browse_if me friend seconds true keys = do
    near ← gets (λ c. is_friend c friend)
    browse (browse_of friend seconds) (bound_for me friend near) (reversed keys []) []

  pub look : (friend me : ℕ) → List PostKey → M (Unit {0}) (Unit {0})
  unfolding browse_if
  look friend me keys = do
    (strategy, seconds) ← get_friend_look_strategy e friend
    allowed ← does_allow_friend_look e friend me
    shown ← browse_if me friend seconds allowed keys
    weibo_answer (browse_someone shown strategy)

  unfoldable pub c2s_browse_someone_weibo : (parsed : Bool) → (friend last : ℕ) → Session → Session
  unfolding keys_of look
  c2s_browse_someone_weibo parsed friend last = run do
    when (not parsed) (weibo_reject unmarshal_browse_someone)
    me ← gets (λ c. c.account_id)
    num ← ask e.affected (is_set_member friend_set friend me)
    keys ← keys_of me friend last num
    look friend me keys

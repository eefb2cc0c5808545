-- ===== src/Client/Account/Searching.antt =====
-- msg-server/client/account.go: `C2SFindUser`, and `getSomeoneWeiboRds` of weibo.go, from which it takes the
-- pictures that it shows.
pub mod Shown
pub mod Keeps
use Prim.Native.Nat.{bit_and}
use instant_message.Prelude.{
  ℕ, ◌+◌, ◌-◌, ◌%◌, ◌^◌, String, Bool, true, false, not, ◌&&◌, ◌||◌, ◌==◌, leb, signed_ltb, length,
  Option, none, some, List, [], ◌∷◌, ◌++◌, if◌then◌else◌,
}
use instant_message.Client.{is_friend}
use instant_message.Client.Message.{is_blank}
use instant_message.Client.GroupMessage.{HashField, present, absent, broken}
use instant_message.Client.AccountMessage.{
  UserBriefInfo, UserRow, PostBrief, AccountCall, unmarshal_find_user, find_user_key_is_empty,
  user_is_not_exist, find_user_ack, get_brief_info_of, get_name_account, get_post_ids,
  select_account_id, select_user_name,
}
use instant_message.Client.WeiboMessage.{get_weibo, get_strategy}
use instant_message.Client.Requests.{or_empty}
use instant_message.Client.Session.{
  Call, Env, Session, M, ◌>>=◌, ◌>>◌, pure, stop, when, gets, ask, run, scoped, account_call,
  weibo_call, get_portrait, is_set_member, black_list_set,
}
use instant_message.Client.Weibo.Settings.{
  does_allow_friend_look, does_allow_stranger_look, strategy_of, number_of,
}
use instant_message.Client.Account.{account_reject, account_answer}

-- Neither only pictures nor only videos; a text beside them is another bit.
abbrev pub is_no_picture : (kind : ℕ) → Bool
is_no_picture kind = not (kind == bit_and kind 2) && not (kind == bit_and kind 4)

-- The first addresses, four at most.
abbrev pub add_urls : List String → (new : List String) → List String
add_urls urls [] = urls
add_urls urls (url ∷ new) =
    let more = add_urls (urls ++ url ∷ []) new in if leb 4 (length urls) then urls else more

abbrev urls_of_post : List String → Option (List String) → List String
urls_of_post urls none = urls
urls_of_post urls (some new) = add_urls urls new

abbrev urls_of : List String → Option PostBrief → List String
urls_of urls none = urls
urls_of urls (some post) = if is_no_picture post.kind then urls else urls_of_post urls post.urls

abbrev pub collect_urls : List String → List (Option PostBrief) → List String
collect_urls urls [] = urls
collect_urls urls (post ∷ posts) =
    let rest = collect_urls (urls_of urls post) posts in if leb 4 (length urls) then urls else rest

abbrev pub newer : (current : ℕ) → List ℕ → List ℕ
newer current [] = []
newer current (id ∷ ids) =
    let rest = newer current ids in if signed_ltb current id then id ∷ rest else rest

-- A strategy that was never set is no error.
abbrev is_strategy_error : HashField → Option ℕ → Bool
is_strategy_error absent n = false
is_strategy_error broken n = true
is_strategy_error present none = true
is_strategy_error present (some n) = false

-- `0 != lastTimeStamp && weiboId > lastTimeStamp-allowLookTimeStamp`, in int64.
abbrev is_past : (last seconds weibo : ℕ) → Bool
is_past last seconds weibo =
    not (last == 0) && signed_ltb ((last + (2 ^ 64 - seconds)) % 2 ^ 64) weibo

module _ (e : Env) where
  -- The account that mysql gives, with the portrait that redis has.
  abbrev from_row : {R : Type 0} → Option UserRow → M R (Option UserBriefInfo)
  from_row none = pure none
  from_row (some row) = do
    portrait ← ask e.text (get_portrait row.account_id)
    pure (
        some (record {
          account_id = row.account_id;
          nickname = row.nick_name;
          user_name = row.user_name;
          head_portrait = or_empty portrait;
        }))

  abbrev select_user : {R : Type 0} → AccountCall → M R (Option UserBriefInfo)
  select_user c = do row ← ask e.user_row (account_call c); from_row row

  abbrev or_select :
      {R : Type 0} → (key : String) → Option UserBriefInfo → M R (Option UserBriefInfo)
  or_select key none = select_user (select_account_id key)
  or_select key (some info) = pure (some info)

  abbrev by_phone_num : {R : Type 0} → (key : String) → Option String → M R (Option UserBriefInfo)
  by_phone_num key none = select_user (select_account_id key)
  by_phone_num key (some text) = or_select key (e.proto_brief text)

  pub find_user_by_phone_num : {R : Type 0} → (key : String) → M R (Option UserBriefInfo)
  find_user_by_phone_num key = do
    text ← ask e.text (account_call (get_brief_info_of key))
    by_phone_num key text

  abbrev by_user_name : {R : Type 0} → (key : String) → Option String → M R (Option UserBriefInfo)
  by_user_name key none = select_user (select_user_name key)
  by_user_name key (some text) = pure (e.json_brief text)

  pub find_user_by_user_name : {R : Type 0} → (key : String) → M R (Option UserBriefInfo)
  find_user_by_user_name key = do
    text ← ask e.text (account_call (get_name_account key))
    by_user_name key text

  abbrev or_by_name :
      {R : Type 0} → (key : String) → Option UserBriefInfo → M R (Option UserBriefInfo)
  or_by_name key none = find_user_by_user_name key
  or_by_name key (some info) = pure (some info)

  pub find_user_by_key : {R : Type 0} → (key : String) → M R (Option UserBriefInfo)
  find_user_by_key key = do info ← find_user_by_phone_num key; or_by_name key info

  -- How many posts are read and how far back they go; none where the user may not look, or redis fails.
  pub look_bounds : (me publisher : ℕ) → M (List (Option PostBrief)) (ℕ × ℕ)
  look_bounds me publisher s = elim (me == publisher) [
    | true ↦ pure (12, 0) s
    | false ↦ elim (is_friend s.client publisher) [
      | true ↦
          (do
            (ok, num) ←
                ask (λ t c. (e.ok t c, e.affected t c)) (is_set_member black_list_set publisher me)
            when (not ok) (stop [])
            when (num == 1) (stop [])
            allowed ← does_allow_friend_look e publisher me
            when (not allowed) (stop [])
            (field, n) ←
                ask (λ t c. (e.hash_field t c, e.id t c)) (weibo_call (get_strategy publisher))
            when (is_strategy_error field n) (stop [])
            pure (12, (strategy_of (number_of n)).1))
            s
      | false ↦
          (do
            allowed ← does_allow_stranger_look e publisher
            when (not allowed) (stop [])
            pure (10, 0))
            s
    ]
  ]

  -- The posts that redis gives, until there are enough.
  pub read_posts :
      (publisher last seconds enough : ℕ)
      → List ℕ
      → List (Option PostBrief)
      → M (List (Option PostBrief)) (List (Option PostBrief))
  read_posts publisher last seconds enough [] posts s = pure posts s
  read_posts publisher last seconds enough (id ∷ ids) posts s =
      let asked : Call = weibo_call (get_weibo publisher id) in
      let t : Session = record s { trace = asked ∷ s.trace } in
      elim (is_past last seconds id) [
        | true ↦ read_posts publisher last seconds enough ids posts s
        | false ↦ elim (e.post_brief s.trace asked) [
          | none ↦ read_posts publisher last seconds enough ids posts t
          | some post ↦ elim (length (posts ++ post ∷ []) == enough) [
            | true ↦ pure (posts ++ post ∷ []) t
            | false ↦ read_posts publisher last seconds enough ids (posts ++ post ∷ []) t
          ]
        ]
      ]

  abbrev given_ids : Option (List ℕ) → M (List (Option PostBrief)) (List ℕ)
  given_ids none = stop []
  given_ids (some ids) = pure ids

  pub get_someone_weibo_rds :
      {R : Type 0} → (me publisher current last : ℕ) → M R (List (Option PostBrief))
  unfolding look_bounds read_posts
  get_someone_weibo_rds me publisher current last = scoped do
    (enough, seconds) ← look_bounds me publisher
    found ← ask e.set_ids (account_call (get_post_ids publisher))
    ids ← given_ids found
    read_posts publisher last seconds enough (e.back_sorted (newer current ids)) []

  pub show_user : Option UserBriefInfo → M (Unit {0}) (Unit {0})
  unfolding get_someone_weibo_rds
  show_user none = account_reject user_is_not_exist
  show_user (some info) = do
    me ← gets (λ c. c.account_id)
    posts ← get_someone_weibo_rds me info.account_id 0 0
    account_answer (find_user_ack info (collect_urls [] posts))

  unfoldable pub c2s_find_user : (parsed : Bool) → (key : String) → Session → Session
  unfolding find_user_by_key find_user_by_phone_num find_user_by_user_name show_user
  c2s_find_user parsed key = run do
    when (not parsed) (account_reject unmarshal_find_user)
    when (is_blank key) (account_reject find_user_key_is_empty)
    info ← find_user_by_key key
    show_user info

-- ===== src/Client/Weibo/Settings.antt =====
-- msg-server/client/weiboAllowQuery.go: whose posts the user looks at, who may look at the user's, and how far
-- back. A message that is not unmarshalled, and most failures of redis, end a handler without a word.
pub mod Lists
pub mod Excluding
pub mod RoundTrip
pub mod Keeps
use instant_message.Prelude.{
  ℕ, ◌*◌, String, Bool, is_some, true, false, not, ◌==◌, ltb, Option, none, some, List, [], ◌∷◌,
  ◌++◌, if◌then◌else◌,
}
use instant_message.Client.{is_friends}
use instant_message.Client.WeiboMessage.{
  BriefInfo, Strategy, undefined, half_year, one_month, three_days, dont_look_list, dont_look_ack,
  forbidden_list, forbidden_ack, stranger_allowed, allow_stranger_ack, strategy_ack, look_strategy,
  get_strategy, set_strategy, delete_strategy,
}
use instant_message.Client.Session.{
  Call, Env, Session, Key, M, ◌>>=◌, ◌>>◌, pure, stop, when, gets, call, ask, scoped, run, set_add,
  set_remove, is_set_member, get_set_members, get_brief_info, weibo_call, dont_look_weibo_set,
  forbidden_look_weibo_set, stranger_look_weibo_set,
}
use instant_message.Client.Weibo.{weibo_answer}

-- The set of those who do not let strangers look has one owner.
abbrev pub allow_strangers_look_weibo : ℕ
allow_strangers_look_weibo = 0

abbrev pub set_call : (put : Bool) → Key → (owner member : ℕ) → Call
set_call true key owner k = set_add key owner k
set_call false key owner k = set_remove key owner k

abbrev pub number_of : Option ℕ → ℕ
number_of none = 0
number_of (some n) = n

-- The strategy and the seconds, 0 for no bound.
abbrev pub strategy_of : ℕ → Strategy × ℕ
strategy_of n =
    if n == 1
    then (half_year, 60 * 60 * 24 * 180)
    else if n == 2
    then (one_month, 60 * 60 * 24 * 30)
    else if n == 3
    then (three_days, 60 * 60 * 24 * 3)
    else (undefined, 0)

abbrev pub or_no_name : Option String → String
or_no_name none = ""
or_no_name (some name) = name

abbrev pub none_in_set : Bool → (num : ℕ) → Bool
none_in_set ok num = if ok then num == 0 else false

abbrev pub or_none : Option (List BriefInfo) → List BriefInfo
or_none none = []
or_none (some infos) = infos

abbrev pub answer_list : Option (List BriefInfo) → M (Unit {0}) (Unit {0})
answer_list none = stop tt
answer_list (some infos) = weibo_answer (forbidden_list infos)

abbrev pub answer_dont_look : Option (List BriefInfo) → M (Unit {0}) (Unit {0})
answer_dont_look none = stop tt
answer_dont_look (some infos) = weibo_answer (dont_look_ack infos)

module _ (e : Env) where
  -- Whether redis says, without an error, that the account is not in the set.
  abbrev pub is_outside : {R : Type 0} → Key → (owner member : ℕ) → M R Bool
  is_outside key owner k =
      ask (λ t c. none_in_set (e.ok t c) (e.affected t c)) (is_set_member key owner k)

  abbrev pub does_look_friend_weibo : {R : Type 0} → (looker friend : ℕ) → M R Bool
  does_look_friend_weibo looker friend = is_outside dont_look_weibo_set looker friend

  abbrev pub does_allow_friend_look : {R : Type 0} → (publisher looker : ℕ) → M R Bool
  does_allow_friend_look publisher looker = is_outside forbidden_look_weibo_set publisher looker

  abbrev pub does_allow_stranger_look : {R : Type 0} → (user : ℕ) → M R Bool
  does_allow_stranger_look user = is_outside stranger_look_weibo_set allow_strangers_look_weibo user

  -- What is no number counts as no strategy.
  abbrev pub get_friend_look_strategy : {R : Type 0} → (publisher : ℕ) → M R (Strategy × ℕ)
  get_friend_look_strategy publisher =
      ask (λ t c. strategy_of (number_of (e.id t c))) (weibo_call (get_strategy publisher))

  -- `QueryOthersBriefInfos`: an error leaves no list.
  brief_infos : List ℕ → List BriefInfo → M (List BriefInfo) (List BriefInfo)
  brief_infos [] infos = pure infos
  brief_infos (id ∷ ids) infos = do
    brief_id ← (λ t. pure (e.brief_id t.trace (get_brief_info id)) t)
    name ← ask e.text (get_brief_info id)
    when (not (is_some name)) (stop [])
    brief_infos ids (infos ++ (record { account_id = brief_id; nick_name = or_no_name name }) ∷ [])

  pub infos_of : {R : Type 0} → Option (List ℕ) → M R (Option (List BriefInfo))
  unfolding brief_infos
  infos_of none = pure none
  infos_of (some ids) = do infos ← scoped (brief_infos ids []); pure (some infos)

  pub get_list : {R : Type 0} → Key → M R (Option (List BriefInfo))
  unfolding infos_of
  get_list key = do
    me ← gets (λ c. c.account_id)
    ids ← ask e.set_ids (get_set_members key me)
    infos_of ids

  -- A list that redis does not give is sent empty.
  unfoldable pub c2s_get_dont_look_friend_weibo_list : (parsed : Bool) → Session → Session
  unfolding get_list
  c2s_get_dont_look_friend_weibo_list parsed = run do
    when (not parsed) (stop tt)
    infos ← get_list dont_look_weibo_set
    weibo_answer (dont_look_list (or_none infos))

  unfoldable pub c2s_get_forbidden_friend_look_weibo_list : (parsed : Bool) → Session → Session
  unfolding get_list
  c2s_get_forbidden_friend_look_weibo_list parsed =
      run
        do when (not parsed) (stop tt); infos ← get_list forbidden_look_weibo_set; answer_list infos

  -- Only the error of the last command is returned.
  pub set_each : {R : Type 0} → (put : Bool) → Key → (me : ℕ) → List ℕ → (ok : Bool) → M R Bool
  set_each put key me [] ok = pure ok
  set_each put key me (id ∷ ids) ok = do
    done ← ask e.ok (set_call put key me id)
    set_each put key me ids done

  pub finish_dont_look : (ok : Bool) → M (Unit {0}) (Unit {0})
  unfolding get_list
  finish_dont_look ok = do
    when (not ok) (stop tt)
    infos ← get_list dont_look_weibo_set
    answer_dont_look infos

  pub finish_forbidden : (ok : Bool) → M (Unit {0}) (Unit {0})
  unfolding get_list
  finish_forbidden ok = do
    when (not ok) (stop tt)
    infos ← get_list forbidden_look_weibo_set
    weibo_answer (forbidden_ack (or_none infos))

  -- The list of friends is never nil, so that an empty one is no reason to return.
  unfoldable pub c2s_dont_look_friend_weibo :
      (parsed : Bool) → (friend_ids : List ℕ) → (not_look : Bool) → Session → Session
  unfolding set_each finish_dont_look
  c2s_dont_look_friend_weibo parsed friend_ids not_look = run do
    when (not parsed) (stop tt)
    me ← gets (λ c. c.account_id)
    friends ← gets (λ c. is_friends c friend_ids)
    ok ← set_each not_look dont_look_weibo_set me friends true
    finish_dont_look ok

  unfoldable pub c2s_forbidden_friend_look_weibo :
      (parsed : Bool) → (friend_ids : List ℕ) → (forbidden : Bool) → Session → Session
  unfolding set_each finish_forbidden
  c2s_forbidden_friend_look_weibo parsed friend_ids forbidden = run do
    when (not parsed) (stop tt)
    me ← gets (λ c. c.account_id)
    friends ← gets (λ c. is_friends c friend_ids)
    ok ← set_each forbidden forbidden_look_weibo_set me friends true
    finish_forbidden ok

  unfoldable pub c2s_is_allow_stranger_look_weibo : (parsed : Bool) → Session → Session
  c2s_is_allow_stranger_look_weibo parsed = run do
    when (not parsed) (stop tt)
    me ← gets (λ c. c.account_id)
    let asked : Call = is_set_member stranger_look_weibo_set allow_strangers_look_weibo me
    (ok, num) ← ask (λ t c. (e.ok t c, e.affected t c)) asked
    when (not ok) (stop tt)
    weibo_answer (stranger_allowed (num == 0))

  -- Removing who is not in the set is no error of redis.
  unfoldable pub c2s_allow_stranger_look_weibo :
      (parsed : Bool) → (allow : Bool) → Session → Session
  c2s_allow_stranger_look_weibo parsed allow = run do
    when (not parsed) (stop tt)
    me ← gets (λ c. c.account_id)
    ok ← ask e.ok (set_call (not allow) stranger_look_weibo_set allow_strangers_look_weibo me)
    when (not ok) (stop tt)
    weibo_answer allow_stranger_ack

  unfoldable pub c2s_get_friend_look_weibo_strategy : (parsed : Bool) → Session → Session
  c2s_get_friend_look_weibo_strategy parsed = run do
    when (not parsed) (stop tt)
    me ← gets (λ c. c.account_id)
    n ← ask e.id (weibo_call (get_strategy me))
    weibo_answer (look_strategy (number_of n))

  abbrev pub strategy_call : (me strategy : ℕ) → Call
  strategy_call me n =
      if n == 0 then weibo_call (delete_strategy me) else weibo_call (set_strategy me n)

  unfoldable pub c2s_friend_look_weibo_strategy :
      (parsed : Bool) → (strategy : ℕ) → Session → Session
  c2s_friend_look_weibo_strategy parsed strategy = run do
    when (not parsed) (stop tt)
    when (not (ltb strategy 4)) (stop tt)
    me ← gets (λ c. c.account_id)
    ok ← ask e.ok (strategy_call me strategy)
    when (not ok) (stop tt)
    weibo_answer strategy_ack

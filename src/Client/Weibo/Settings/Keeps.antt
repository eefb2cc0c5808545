-- ===== src/Client/Weibo/Settings/Keeps.antt =====
-- The settings of weiboAllowQuery.go leave the client as it was.
use instant_message.Prelude.{
  ℕ, ◌≡◌, refl, Bool, true, false, Option, none, some, List, [], ◌∷◌, arith,
}
use instant_message.Client.{Client, is_friends}
use instant_message.Client.WeiboMessage.{BriefInfo, dont_look_list}
use instant_message.Client.Weibo.{weibo_answer}
use instant_message.Client.Session.{
  Call, Env, Session, Key, dont_look_weibo_set, forbidden_look_weibo_set,
}
use instant_message.Client.Flows.{Within, Within-then, Keeping}
use instant_message.Client.Weibo.Settings.{
  get_list, set_each, set_call, c2s_dont_look_friend_weibo, c2s_forbidden_friend_look_weibo,
  c2s_get_dont_look_friend_weibo_list, c2s_get_forbidden_friend_look_weibo_list,
  c2s_is_allow_stranger_look_weibo, c2s_allow_stranger_look_weibo,
  c2s_get_friend_look_weibo_strategy, c2s_friend_look_weibo_strategy, answer_list, finish_dont_look,
  finish_forbidden, or_none,
}
use instant_message.Client.Weibo.Settings.Lists.{get_list-Keeping, after_dont_look, after_forbidden}

module _ (e : Env) (c : Client) where
  abbrev Any : List Call → Type 0
  Any t = Unit

  set_each-Any :
      (put : Bool) (key : Key) (me : ℕ) (ids : List ℕ) (ok : Bool) (s : Session)
      → Keeping c Any s
      → Within {R = Unit {0}} (Keeping c Any) (set_each e put key me ids ok s)
  unfolding set_each
  set_each-Any put key me [] ok s h = h
  set_each-Any put key me (id ∷ ids) ok s h =
      let t = set_call put key me id in
      set_each-Any put key me ids (e.ok s.trace t) (record s { trace = t ∷ s.trace }) h

module _ (e : Env) (s : Session) where
  abbrev Same : Session → Type 0
  Same = Keeping s.client (Any e s.client)

  listed : (key : Key) → Within Same (get_list e {R = Unit {0}} key s)
  listed key =
      get_list-Keeping e s.client (Any e s.client) (λ t i q. tt) (λ t k i q. tt) key s (refl, tt)

  answered :
      (infos : Option (List BriefInfo)) (t : Session) → Same t → Within Same (answer_list infos t)
  answered none t k = k
  answered (some infos) t k = (k.0, tt)

  pub dont_look_list-client :
      (parsed : Bool) → (c2s_get_dont_look_friend_weibo_list e parsed s).client ≡ s.client
  unfolding c2s_get_dont_look_friend_weibo_list
  dont_look_list-client false = refl
  dont_look_list-client true =
      (Within-then Same (get_list e dont_look_weibo_set)
        (λ infos. weibo_answer (dont_look_list (or_none infos))) s (listed dont_look_weibo_set)
        (λ infos t k. (k.0, tt))).0

  pub forbidden_list-client :
      (parsed : Bool) → (c2s_get_forbidden_friend_look_weibo_list e parsed s).client ≡ s.client
  unfolding c2s_get_forbidden_friend_look_weibo_list
  forbidden_list-client false = refl
  forbidden_list-client true =
      (Within-then Same (get_list e forbidden_look_weibo_set) answer_list s
        (listed forbidden_look_weibo_set) answered).0

  module _ (ids : List ℕ) (put : Bool) where
    all_set :
        (key : Key)
        → Within {R = Unit {0}} Same
            (set_each e put key s.client.account_id (is_friends s.client ids) true s)
    all_set key =
        set_each-Any e s.client put key s.client.account_id (is_friends s.client ids) true s
          (refl, tt)

    pub dont_look-client :
        (parsed : Bool) → (c2s_dont_look_friend_weibo e parsed ids put s).client ≡ s.client
    unfolding c2s_dont_look_friend_weibo
    dont_look-client false = refl
    dont_look-client true =
        (Within-then Same
          (set_each e put dont_look_weibo_set s.client.account_id (is_friends s.client ids) true)
          (finish_dont_look e) s (all_set dont_look_weibo_set)
          (λ ok t k.
            after_dont_look e s.client (Any e s.client) (λ t i q. tt) (λ t k i q. tt) (λ t r q. tt)
              ok t k)).0

    pub forbidden-client :
        (parsed : Bool) → (c2s_forbidden_friend_look_weibo e parsed ids put s).client ≡ s.client
    unfolding c2s_forbidden_friend_look_weibo
    forbidden-client false = refl
    forbidden-client true =
        (Within-then Same
          (set_each e put forbidden_look_weibo_set s.client.account_id (is_friends s.client ids)
            true)
          (finish_forbidden e) s (all_set forbidden_look_weibo_set)
          (λ ok t k.
            after_forbidden e s.client (Any e s.client) (λ t i q. tt) (λ t k i q. tt) (λ t r q. tt)
              ok t k)).0

  pub is_allow_stranger-client :
      (parsed : Bool) → (c2s_is_allow_stranger_look_weibo e parsed s).client ≡ s.client
  unfolding c2s_is_allow_stranger_look_weibo
  is_allow_stranger-client parsed = ground arith

  pub allow_stranger-client :
      (parsed allow : Bool) → (c2s_allow_stranger_look_weibo e parsed allow s).client ≡ s.client
  unfolding c2s_allow_stranger_look_weibo
  allow_stranger-client parsed allow = ground arith

  pub get_strategy-client :
      (parsed : Bool) → (c2s_get_friend_look_weibo_strategy e parsed s).client ≡ s.client
  unfolding c2s_get_friend_look_weibo_strategy
  get_strategy-client parsed = ground arith

  pub set_strategy-client :
      (parsed : Bool) (strategy : ℕ)
      → (c2s_friend_look_weibo_strategy e parsed strategy s).client ≡ s.client
  unfolding c2s_friend_look_weibo_strategy
  set_strategy-client parsed strategy = ground arith

-- ===== src/Client/Weibo/Receiving/Shown.antt =====
-- Which posts of others the queue brings the user (MQMsg.go).
use instant_message.Prelude.{ℕ, Bool, true, false, ◌&&◌, ◌==◌, not, List, [], ◌∷◌}
use instant_message.Client.{Client}
use instant_message.Client.WeiboMessage.{Weibo, published}
use instant_message.Client.Session.{
  Call, Env, Key, send, weibo_reply, is_set_member, friend_set, black_list_set, dont_look_weibo_set,
  forbidden_look_weibo_set,
}

abbrev pub is_shown : List Call → Bool
is_shown (send (weibo_reply (published w)) ∷ cs) = true
is_shown _ = false

module _ (e : Env) where
  abbrev pub num : Key → (owner member : ℕ) → ℕ
  num key a b = e.affected [] (is_set_member key a b)

  -- The sets in redis let the user see the posts of the publisher.
  abbrev pub may_read : (me publisher : ℕ) → Bool
  may_read me p =
      num friend_set p me == 1
      && not (num black_list_set p me == 1)
      && not (num black_list_set me p == 1)
      && num dont_look_weibo_set me p == 0
      && num forbidden_look_weibo_set p me == 0

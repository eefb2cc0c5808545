-- ===== src/Client/Redis.antt =====
-- The redis sets that a trace of calls describes, as redis documents SADD and SREM: a command that
-- returns no error has taken effect, and one that returns an error has not.
use instant_message.Prelude.{ℕ, Bool, true, false, ◌&&◌, List, [], ◌∷◌, ◌==◌, if◌then◌else◌}
use instant_message.Client.Session.{
  Call, Env, Key, set_add, set_remove, friend_set, black_list_set, agent_set, dont_look_weibo_set,
  forbidden_look_weibo_set, stranger_look_weibo_set, cover_liker_set,
}

abbrev same_key : Key → Key → Bool
same_key friend_set friend_set = true
same_key black_list_set black_list_set = true
same_key agent_set agent_set = true
same_key dont_look_weibo_set dont_look_weibo_set = true
same_key forbidden_look_weibo_set forbidden_look_weibo_set = true
same_key stranger_look_weibo_set stranger_look_weibo_set = true
same_key cover_liker_set cover_liker_set = true
same_key _ _ = false

abbrev effect : Call → Bool → Key → (owner member : ℕ) → Bool → Bool
effect (set_add q o j) done key owner k b =
    if done && (same_key q key && (o == owner && j == k)) then true else b
effect (set_remove q o j) done key owner k b =
    if done && (same_key q key && (o == owner && j == k)) then false else b
effect _ done key owner k b = b

-- Whether `k` is in the set `key` of `owner` after the calls, from whether it was before them.
abbrev pub in_set : Env → Key → (before : Bool) → (owner k : ℕ) → List Call → Bool
in_set e key before owner k [] = before
in_set e key before owner k (c ∷ cs) =
    effect c (e.ok cs c) key owner k (in_set e key before owner k cs)

-- ===== src/Client/Remarks.antt =====
-- msg-server/client/friends.go: `C2SSetFriendRemarkName`.
pub mod Keeps
use Prim.Native.String.{String}
use text.Mathlib.Text.{◌==◌ as str_eq}
use instant_message.Prelude.{ℕ, Bool, not}
use instant_message.Client.{is_friend, set_friend_remark_name}
use instant_message.Client.Session.{
  Env, Session, ◌>>=◌, ◌>>◌, when, gets, modify, call, run, send, publish, reject,
  unmarshal_set_remark_name, remark_is_not_friend, remark_is_empty, set_remark_name,
  set_remark_name_event,
}
use instant_message.Client.Saving.{save_contact_info, save_friend_info_to_redis}

module _ (e : Env) where
  pub c2s_set_friend_remark_name : (parsed : Bool) → ℕ → String → Session → Session
  c2s_set_friend_remark_name parsed id name = run do
    when (not parsed) (reject unmarshal_set_remark_name 0)
    friend ← gets (λ c. is_friend c id)
    when (not friend) (reject remark_is_not_friend 0)
    when (str_eq name "") (reject remark_is_empty 0)
    modify (set_friend_remark_name id name)
    save_contact_info e
    save_friend_info_to_redis
    call (send (set_remark_name id name))
    call (publish (set_remark_name_event (set_remark_name id name)))

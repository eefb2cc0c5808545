-- ===== src/Client/Groups/History/Keeps.antt =====
-- The history of a group (chatGroup.go) leaves the contacts and the black list of the client as they were.
use instant_message.Prelude.{ℕ, ◌≡◌, Bool, arith}
use instant_message.Client.{set_chat_group_last_msg_timestamp}
use instant_message.Client.Session.{Env, Session}
use instant_message.Client.Keyed.{IsValid}
use instant_message.Client.Groups.History.{
  c2s_chat_group_last_msg_time_stamp, c2s_get_offline_group_chat_msg, c2s_withdraw_group_message,
}

module _ (e : Env) (parsed : Bool) (group : ℕ) (s : Session) where
  pub timestamp-IsValid :
      (reported : ℕ)
      → IsValid s.client
      → IsValid (c2s_chat_group_last_msg_time_stamp e parsed group reported s).client
  unfolding c2s_chat_group_last_msg_time_stamp set_chat_group_last_msg_timestamp
  timestamp-IsValid reported v =
      let w : IsValid (set_chat_group_last_msg_timestamp group reported s.client) = record {
        contacts_keyed = v.contacts_keyed;
        black_list_keyed = v.black_list_keyed;
      } in
      ground (arith, w)

  pub offline_group-client :
      (last msg_timestamp : ℕ)
      → (c2s_get_offline_group_chat_msg e parsed group last msg_timestamp s).client ≡ s.client
  unfolding c2s_get_offline_group_chat_msg
  offline_group-client last msg_timestamp = ground arith

  pub withdraw_group-client :
      (ts : ℕ) → (c2s_withdraw_group_message e parsed ts group s).client ≡ s.client
  unfolding c2s_withdraw_group_message
  withdraw_group-client ts = ground arith

-- ===== src/Client/History/Keeps.antt =====
-- The handlers of the history keep the contacts and the black list.
use instant_message.Prelude.{ℕ, Bool, ◌≡◌, arith}
use instant_message.Client.{set_last_msg_timestamp}
use instant_message.Client.Session.{Env, Session}
use instant_message.Client.History.{
  c2s_last_msg_timestamp, c2s_get_offline_private_chat_msg, c2s_withdraw_message, c2s_huan_xin_push,
}
use instant_message.Client.Keyed.{IsValid}

module _ (e : Env) (parsed : Bool) (s : Session) where
  pub last_msg_timestamp-IsValid :
      (long_enough : Bool) (reported : ℕ)
      → IsValid s.client
      → IsValid (c2s_last_msg_timestamp e long_enough parsed reported s).client
  unfolding c2s_last_msg_timestamp set_last_msg_timestamp
  last_msg_timestamp-IsValid long_enough reported v =
      let w : IsValid (set_last_msg_timestamp reported s.client) = record {
        contacts_keyed = v.contacts_keyed;
        black_list_keyed = v.black_list_keyed;
      } in
      ground (arith, w)

  pub get_offline-client : (c2s_get_offline_private_chat_msg e parsed s).client ≡ s.client
  unfolding c2s_get_offline_private_chat_msg
  get_offline-client = ground arith

  pub withdraw-client :
      (ts receiver : ℕ) → (c2s_withdraw_message e parsed ts receiver s).client ≡ s.client
  unfolding c2s_withdraw_message
  withdraw-client ts receiver = ground arith

  pub huan_xin-client : (friend : ℕ) → (c2s_huan_xin_push e parsed friend s).client ≡ s.client
  unfolding c2s_huan_xin_push
  huan_xin-client friend = ground arith

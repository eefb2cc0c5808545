-- ===== src/Client/Groups/Leaving/Keeps.antt =====
-- Leaving a group, dissolving it and kicking a member out (chatGroup.go) leave the client as it was.
use instant_message.Prelude.{ℕ, ◌≡◌, Bool, arith}
use instant_message.Client.Session.{Env, Session}
use instant_message.Client.Groups.Leaving.{
  c2s_cancel_chat_group, c2s_un_chat_group, c2s_chat_group_kick,
}

module _ (e : Env) (parsed : Bool) (id : ℕ) (s : Session) where
  pub cancel-client : (c2s_cancel_chat_group e parsed id s).client ≡ s.client
  unfolding c2s_cancel_chat_group
  cancel-client = ground arith

  pub un-client : (c2s_un_chat_group e parsed id s).client ≡ s.client
  unfolding c2s_un_chat_group
  un-client = ground arith

  pub kick-client : (user : ℕ) → (c2s_chat_group_kick e parsed id user s).client ≡ s.client
  unfolding c2s_chat_group_kick
  kick-client user = ground arith

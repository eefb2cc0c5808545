-- ===== src/Client/Requests/Keeps.antt =====
-- Friend requests and agreements keep each contact under its own account id.
use instant_message.Prelude.{Bool, arith}
use instant_message.Client.{Client, be_friend}
use instant_message.Client.Session.{Env, Session}
use instant_message.Client.Saving.{save_contact_info, update_contact_info_in_memory}
use instant_message.Client.Requests.{
  FriendMsg, c2s_add_friend, c2s_agree_become_friend, c2s_read_friend_req,
}
use instant_message.Client.Keyed.{IsValid, be_friend-IsValid}

pub update-IsValid :
    (e : Env) (c : Client) → IsValid c → IsValid (update_contact_info_in_memory e c)
unfolding update_contact_info_in_memory
update-IsValid e c v = ground (arith, v.contacts_keyed, v.black_list_keyed)

module _ (e : Env) (parsed : Bool) (req : FriendMsg) (s : Session) (v : IsValid s.client) where
  pub add_friend-IsValid : IsValid (c2s_add_friend e parsed req s).client
  unfolding c2s_add_friend
  add_friend-IsValid = ground arith

  pub read_friend_req-IsValid : IsValid (c2s_read_friend_req e parsed req.sender_id s).client
  unfolding c2s_read_friend_req
  read_friend_req-IsValid = ground arith

  pub agree_become_friend-IsValid : IsValid (c2s_agree_become_friend e parsed req s).client
  unfolding c2s_agree_become_friend save_contact_info
  agree_become_friend-IsValid =
      let d = be_friend req.sender_id s.client in
      ground (arith, update-IsValid e d (be_friend-IsValid req.sender_id s.client v))

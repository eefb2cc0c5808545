-- ===== src/Client/BlackList/Keeps.antt =====
-- The handlers of the black list keep each contact under its own account id.
use instant_message.Prelude.{ℕ, Bool, arith}
use instant_message.Client.{Client, be_black_list, be_not_black_list}
use instant_message.Client.Session.{Env, Session}
use instant_message.Client.Saving.{update_black_list_info_in_memory}
use instant_message.Client.BlackList.{
  c2s_add_friend_black_list, c2s_move_out_friend_black_list, c2s_get_friend_black_list,
}
use instant_message.Client.Keyed.{IsValid, be_black_list-IsValid, be_not_black_list-IsValid}

module _ (e : Env) (c : Client) (v : IsValid c) where
  pub update-IsValid : IsValid (update_black_list_info_in_memory e c)
  unfolding update_black_list_info_in_memory
  update-IsValid = ground (arith, v.contacts_keyed, v.black_list_keyed)

module _ (e : Env) (parsed : Bool) (id : ℕ) (s : Session) (v : IsValid s.client) where
  pub add_black_list-IsValid : IsValid (c2s_add_friend_black_list e parsed id s).client
  unfolding c2s_add_friend_black_list
  add_black_list-IsValid =
      let d = be_black_list id s.client in
      let w : IsValid d = be_black_list-IsValid id s.client v in
      ground (arith, be_not_black_list-IsValid id d w, update-IsValid e d w)

  pub move_out_black_list-IsValid : IsValid (c2s_move_out_friend_black_list e parsed id s).client
  unfolding c2s_move_out_friend_black_list
  move_out_black_list-IsValid =
      let d = be_not_black_list id s.client in
      let w : IsValid d = be_not_black_list-IsValid id s.client v in
      ground (arith, be_black_list-IsValid id d w, update-IsValid e d w)

  pub get_friend_black_list-IsValid : IsValid (c2s_get_friend_black_list e parsed s).client
  unfolding c2s_get_friend_black_list
  get_friend_black_list-IsValid = ground arith

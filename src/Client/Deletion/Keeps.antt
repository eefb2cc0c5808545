-- ===== src/Client/Deletion/Keeps.antt =====
-- The deletion of a friend keeps each contact under its own account id.
use instant_message.Prelude.{ℕ, Bool, arith}
use instant_message.Client.{Client, Bytes, be_not_friend}
use instant_message.Client.Session.{Env, Session}
use instant_message.Client.Saving.{bytes}
use instant_message.Client.Deletion.{bare_items, c2s_delete_friend, c2s_confirm_delete_friend}
use instant_message.Client.Keyed.{IsValid, be_friend-IsValid, be_not_friend-IsValid}

pub saved-IsValid : (b : Bytes) (c : Client) → IsValid c → IsValid (record c { contact_list = b })
saved-IsValid b c v = record {
  contacts_keyed = v.contacts_keyed;
  black_list_keyed = v.black_list_keyed;
}

module _ (e : Env) (parsed : Bool) (id : ℕ) (s : Session) (v : IsValid s.client) where
  pub delete_friend-IsValid : IsValid (c2s_delete_friend e parsed id s).client
  unfolding c2s_delete_friend
  delete_friend-IsValid =
      let d = be_not_friend id s.client in
      let w : IsValid d = be_not_friend-IsValid id s.client v in
      ground (
        arith,
        be_friend-IsValid id d w,
        saved-IsValid (bytes (e.marshal (bare_items d.contacts))) d w,
      )

  pub confirm_delete_friend-IsValid : IsValid (c2s_confirm_delete_friend e parsed id s).client
  unfolding c2s_confirm_delete_friend
  confirm_delete_friend-IsValid =
      let d = be_not_friend id s.client in
      let w : IsValid d = be_not_friend-IsValid id s.client v in
      ground (
        arith,
        be_friend-IsValid id d w,
        saved-IsValid (bytes (e.marshal (bare_items d.contacts))) d w,
      )

-- ===== src/Client/Account/Keeps.antt =====
-- The handlers of the account keep the maps of the client (account.go, rename.go).
use instant_message.Prelude.{String, ◌≡◌, sym, subst, Bool, Option, arith}
use instant_message.Client.AccountMessage.{DeviceInfo}
use instant_message.Client.Session.{Env, Session}
use instant_message.Client.Keyed.{IsValid, IsKeyed}
use instant_message.Client.Account.{
  c2s_heartbeat, c2s_device_info, c2s_set_user_name, c2s_set_head_portrait, c2s_change_password,
  c2s_rename, AccountRequest, heartbeat, device, new_user_name, new_head_portrait, new_password,
  new_name, handle_account,
}

-- The client has the maps of contacts and of the black list that it had.
abbrev SameMaps : (s t : Session) → Type 0
SameMaps s t = (t.client.contacts ≡ s.client.contacts) × (t.client.black_list ≡ s.client.black_list)

module _ (e : Env) (p : Bool) (s : Session) where
  device-SameMaps : (d : Option DeviceInfo) → SameMaps s (c2s_device_info e p d s)
  unfolding c2s_device_info
  device-SameMaps d = ground arith

  user_name-SameMaps : (name : String) → SameMaps s (c2s_set_user_name e p name s)
  unfolding c2s_set_user_name
  user_name-SameMaps name = ground arith

  portrait-SameMaps : (url : String) → SameMaps s (c2s_set_head_portrait e p url s)
  unfolding c2s_set_head_portrait
  portrait-SameMaps url = ground arith

  password-SameMaps : (password : String) → SameMaps s (c2s_change_password e p password s)
  unfolding c2s_change_password
  password-SameMaps password = ground arith

  rename-SameMaps : (name : String) → SameMaps s (c2s_rename e p name s)
  unfolding c2s_rename
  rename-SameMaps name = ground arith

handle_account-SameMaps :
    (e : Env) (r : AccountRequest) (s : Session) → SameMaps s (handle_account e r s)
unfolding handle_account c2s_heartbeat
handle_account-SameMaps e (heartbeat p ts) s = ground arith
handle_account-SameMaps e (device p d) s = device-SameMaps e p s d
handle_account-SameMaps e (new_user_name p name) s = user_name-SameMaps e p s name
handle_account-SameMaps e (new_head_portrait p url) s = portrait-SameMaps e p s url
handle_account-SameMaps e (new_password p password) s = password-SameMaps e p s password
handle_account-SameMaps e (new_name p name) s = rename-SameMaps e p s name

pub handle_account-IsValid :
    (e : Env) (r : AccountRequest) (s : Session)
    → IsValid s.client
    → IsValid (handle_account e r s).client
handle_account-IsValid e r s v =
    let (contacts, black_list) = handle_account-SameMaps e r s in
    record {
      contacts_keyed = subst IsKeyed (sym contacts) v.contacts_keyed;
      black_list_keyed = subst IsKeyed (sym black_list) v.black_list_keyed;
    }

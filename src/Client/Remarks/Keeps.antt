-- ===== src/Client/Remarks/Keeps.antt =====
-- Setting a remark name keeps each contact under its own account id.
use instant_message.Prelude.{ℕ, String, Bool, arith}
use instant_message.Client.{set_friend_remark_name}
use instant_message.Client.Session.{Env, Session}
use instant_message.Client.Saving.{save_contact_info}
use instant_message.Client.Requests.Keeps.{update-IsValid}
use instant_message.Client.Remarks.{c2s_set_friend_remark_name}
use instant_message.Client.Keyed.{IsValid, set_friend_remark_name-IsValid}

pub set_remark-IsValid :
    (e : Env) (parsed : Bool) (id : ℕ) (name : String) (s : Session)
    → IsValid s.client
    → IsValid (c2s_set_friend_remark_name e parsed id name s).client
unfolding c2s_set_friend_remark_name save_contact_info
set_remark-IsValid e parsed id name s v =
    let d = set_friend_remark_name id name s.client in
    ground (arith, update-IsValid e d (set_friend_remark_name-IsValid id s.client v name))

-- ===== src/Client/Mirror/Keeps.antt =====
-- The events of the other terminal keep each contact under its own account id.
use instant_message.Prelude.{arith}
use instant_message.Client.{
  be_friend, be_not_friend, be_black_list, be_not_black_list, set_friend_remark_name,
  set_last_msg_timestamp,
}
use instant_message.Client.Session.{
  Env, Event, Session, agree_become_friend_event, read_friend_req_event, delete_friend_event,
  confirm_delete_friend_event, add_black_list_event, move_out_black_list_event,
  set_remark_name_event, withdraw_event, private_chat_event, last_msg_timestamp_event,
  agree_become_friend, confirm_delete_friend, add_black_list, move_out_black_list, set_remark_name,
}
use instant_message.Client.Saving.{bytes}
use instant_message.Client.Deletion.{bare_items, delete_friend}
use instant_message.Client.Deletion.Keeps.{saved-IsValid}
use instant_message.Client.Requests.Keeps as Contacts
use instant_message.Client.BlackList.Keeps as Listed
use instant_message.Client.Mirror.{mirror}
use instant_message.Client.Keyed.{
  IsValid, be_friend-IsValid, be_not_friend-IsValid, be_black_list-IsValid,
  be_not_black_list-IsValid, set_friend_remark_name-IsValid,
}

pub mirror-IsValid :
    (e : Env) (event : Event) (s : Session) → IsValid s.client → IsValid (mirror e event s).client
unfolding mirror delete_friend set_last_msg_timestamp
mirror-IsValid e (private_chat_event m) s v = v
mirror-IsValid e (read_friend_req_event r) s v = v
mirror-IsValid e (delete_friend_event r) s v = v
mirror-IsValid e (withdraw_event r) s v = v
mirror-IsValid e (last_msg_timestamp_event ts) s v = record {
  contacts_keyed = v.contacts_keyed;
  black_list_keyed = v.black_list_keyed;
}
mirror-IsValid e (agree_become_friend_event (agree_become_friend id ts name portrait)) s v =
    Contacts.update-IsValid e (be_friend id s.client) (be_friend-IsValid id s.client v)
mirror-IsValid e (confirm_delete_friend_event (confirm_delete_friend id)) s v =
    let d = be_not_friend id s.client in
    let w : IsValid d = be_not_friend-IsValid id s.client v in
    ground (
      arith,
      be_friend-IsValid id d w,
      saved-IsValid (bytes (e.marshal (bare_items d.contacts))) d w,
    )
mirror-IsValid e (add_black_list_event (add_black_list id)) s v =
    let d = be_black_list id s.client in
    ground (arith, Listed.update-IsValid e d (be_black_list-IsValid id s.client v))
mirror-IsValid e (move_out_black_list_event (move_out_black_list id)) s v =
    let d = be_not_black_list id s.client in
    ground (arith, Listed.update-IsValid e d (be_not_black_list-IsValid id s.client v))
mirror-IsValid e (set_remark_name_event (set_remark_name id name)) s v =
    Contacts.update-IsValid e (set_friend_remark_name id name s.client)
      (set_friend_remark_name-IsValid id s.client v name)
mirror-IsValid e _ s v = v

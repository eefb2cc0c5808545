-- ===== src/Client/Mirror.antt =====
-- msg-server/otherTerminal/otherTerminal.go: what the events of a client do to the client of the same
-- account on the other terminal, where there is one. The session is that other client's; the event's
-- handler is called where a handler publishes it.
pub mod Effects
pub mod Keeps
use instant_message.Prelude.{ℕ, Bool, true, false, not, Option, none, some}
use instant_message.Online.{Conn, Table, get_other_terminal_client}
use instant_message.Client.{
  is_friend, is_black_list, be_friend, be_black_list, be_not_black_list, set_friend_remark_name,
  set_last_msg_timestamp,
}
use instant_message.Client.Message.{ChatMessage}
use instant_message.Client.Session.{
  Env, Event, Reply, Session, M, ◌>>=◌, ◌>>◌, pure, stop, when, gets, modify, call, run, send,
  agree_become_friend_event, read_friend_req_event, delete_friend_event,
  confirm_delete_friend_event, add_black_list_event, move_out_black_list_event,
  set_remark_name_event, withdraw_event, private_chat_event, last_msg_timestamp_event,
  agree_become_friend, confirm_delete_friend, add_black_list, move_out_black_list, set_remark_name,
  other_terminal_private_chat, other_terminal_agree_become_friend,
}
use instant_message.Client.Saving.{update_contact_info_in_memory, update_black_list_info_in_memory}
use instant_message.Client.Deletion.{delete_friend}

module _ (e : Env) where
  -- The guard is the source's: a friend who is not listed is not added.
  on_add_black_list : (friend : ℕ) → M (Unit {0}) (Unit {0})
  on_add_black_list friend = do
    is_mine ← gets (λ c. is_friend c friend)
    when (not is_mine) (stop tt)
    listed ← gets (λ c. is_black_list c friend)
    when (not listed) (stop tt)
    modify (be_black_list friend)
    modify (update_black_list_info_in_memory e)
    call (send (add_black_list friend))

  -- The guard is the source's: a friend who is listed is not removed.
  on_move_out_black_list : (friend : ℕ) → M (Unit {0}) (Unit {0})
  on_move_out_black_list friend = do
    is_mine ← gets (λ c. is_friend c friend)
    when (not is_mine) (stop tt)
    listed ← gets (λ c. is_black_list c friend)
    when listed (stop tt)
    modify (be_not_black_list friend)
    modify (update_black_list_info_in_memory e)
    call (send (move_out_black_list friend))

  -- A type assertion that no publisher violates ends the handler.
  on_event : Event → M (Unit {0}) (Unit {0})
  unfolding on_add_black_list on_move_out_black_list
  on_event (private_chat_event m) = call (send (other_terminal_private_chat m))
  on_event (agree_become_friend_event (agree_become_friend sender ts name portrait)) = do
    modify (be_friend sender)
    modify (update_contact_info_in_memory e)
    call (send (other_terminal_agree_become_friend sender name))
  on_event (read_friend_req_event r) = call (send r)
  on_event (last_msg_timestamp_event ts) = modify (set_last_msg_timestamp ts)
  on_event (delete_friend_event r) = call (send r)
  on_event (confirm_delete_friend_event (confirm_delete_friend friend)) = do
    deleted ← delete_friend e friend
    when deleted (call (send (confirm_delete_friend friend)))
  on_event (add_black_list_event (add_black_list friend)) = on_add_black_list friend
  on_event (move_out_black_list_event (move_out_black_list friend)) = on_move_out_black_list friend
  on_event (set_remark_name_event (set_remark_name friend name)) = do
    modify (set_friend_remark_name friend name)
    modify (update_contact_info_in_memory e)
    call (send (set_remark_name friend name))
  on_event (withdraw_event r) = call (send r)
  on_event _ = stop tt

  pub mirror : Event → Session → Session
  unfolding on_event
  mirror event = run (on_event event)

-- ===== src/Client/BlackList.antt =====
-- msg-server/client/friends.go: the handlers of the black list. A handler takes whether the message
-- was unmarshalled, and the fields that it read.
pub mod Agreement
pub mod Keeps
use instant_message.Prelude.{ℕ, Bool, not, Option, none, some, is_some}
use instant_message.Client.{
  is_friend, is_black_list, be_black_list, be_not_black_list, get_black_list_ids,
}
use instant_message.Client.Session.{
  Env, Session, M, ◌>>=◌, ◌>>◌, pure, stop, when, gets, modify, call, run, send, publish,
  add_black_list, move_out_black_list, friend_black_list, add_black_list_event,
  move_out_black_list_event,
}
use instant_message.Client.Saving.{
  bytes, get_black_list_bin, save_black_list_db, be_black_list_rds, be_not_black_list_rds,
  update_black_list_info_in_memory,
}

module _ (e : Env) (parsed : Bool) where
  add_friend_black_list : ℕ → M (Unit {0}) (Unit {0})
  unfolding save_black_list_db be_black_list_rds be_not_black_list_rds
  add_friend_black_list id = do
    when (not parsed) (stop tt)
    friend ← gets (λ c. is_friend c id)
    when (not friend) (stop tt)
    listed ← gets (λ c. is_black_list c id)
    when listed (do call (send (add_black_list id)); stop tt)
    modify (be_black_list id)
    added ← be_black_list_rds e id
    when (not added) (do modify (be_not_black_list id); stop tt)
    bin ← gets (get_black_list_bin e)
    when (not (is_some bin)) do modify (be_not_black_list id); be_not_black_list_rds e id; stop tt
    saved ← save_black_list_db e (bytes bin)
    when (not saved) do modify (be_not_black_list id); be_not_black_list_rds e id; stop tt
    modify (update_black_list_info_in_memory e)
    call (send (add_black_list id))
    call (publish (add_black_list_event (add_black_list id)))

  move_out_friend_black_list : ℕ → M (Unit {0}) (Unit {0})
  unfolding save_black_list_db be_black_list_rds be_not_black_list_rds
  move_out_friend_black_list id = do
    when (not parsed) (stop tt)
    friend ← gets (λ c. is_friend c id)
    when (not friend) (stop tt)
    listed ← gets (λ c. is_black_list c id)
    when (not listed) (do call (send (move_out_black_list id)); stop tt)
    modify (be_not_black_list id)
    removed ← be_not_black_list_rds e id
    when (not removed) (do modify (be_black_list id); stop tt)
    bin ← gets (get_black_list_bin e)
    when (not (is_some bin)) do modify (be_black_list id); be_black_list_rds e id; stop tt
    saved ← save_black_list_db e (bytes bin)
    when (not saved) do modify (be_black_list id); be_black_list_rds e id; stop tt
    modify (update_black_list_info_in_memory e)
    call (send (move_out_black_list id))
    call (publish (move_out_black_list_event (move_out_black_list id)))

  pub c2s_add_friend_black_list : ℕ → Session → Session
  unfolding add_friend_black_list
  c2s_add_friend_black_list id = run (add_friend_black_list id)

  pub c2s_move_out_friend_black_list : ℕ → Session → Session
  unfolding move_out_friend_black_list
  c2s_move_out_friend_black_list id = run (move_out_friend_black_list id)

  pub c2s_get_friend_black_list : Session → Session
  unfolding get_black_list_ids
  c2s_get_friend_black_list = run do
    when (not parsed) (stop tt)
    ids ← gets get_black_list_ids
    call (send (friend_black_list ids))

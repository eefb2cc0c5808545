-- ===== src/Client/Mirror/Effects.antt =====
-- What the events of otherTerminal.go change in the other terminal's client.
use instant_message.Prelude.{ℕ, String, ◌≡◌, true, arith, ◌==◌, if◌then◌else◌}
use instant_message.Client.{is_friend, is_black_list, be_friend, be_black_list, be_not_black_list}
use instant_message.Client.Session.{
  Env, Session, agree_become_friend_event, add_black_list_event, move_out_black_list_event,
  agree_become_friend, add_black_list, move_out_black_list,
}
use instant_message.Client.BlackList.Agreement.{
  is_black_list-be_black_list, is_black_list-be_not_black_list, is_black_list-update,
}
use instant_message.Client.Deletion.Outcome.{is_friend-be_friend}
use instant_message.Client.Requests.Friendship.{is_friend-update}
use instant_message.Client.Mirror.{mirror}

module _ (e : Env) (id k : ℕ) (s : Session) where
  -- Neither the event that a friend was put on the black list nor the event that a friend was taken out
  -- changes who is on the black list of the other terminal's client.
  pub mirror-black_list :
      (is_black_list (mirror e (add_black_list_event (add_black_list id)) s).client k
        ≡ is_black_list s.client k)
      × (is_black_list (mirror e (move_out_black_list_event (move_out_black_list id)) s).client k
          ≡ is_black_list s.client k)
  unfolding mirror
  mirror-black_list = ground (
    arith,
    is_black_list-be_black_list id k s.client,
    is_black_list-be_not_black_list id k s.client,
    is_black_list-update e (be_black_list id s.client) k,
    is_black_list-update e (be_not_black_list id s.client) k,
  )

  -- The event of an agreement makes the sender of the request a friend on the other terminal, and
  -- keeps every other contact there.
  pub mirror-agree :
      (ts : ℕ) (name portrait : String)
      → is_friend
          (mirror e (agree_become_friend_event (agree_become_friend id ts name portrait)) s).client
          k
        ≡ (if id == k then true else is_friend s.client k)
  unfolding mirror
  mirror-agree ts name portrait =
      ground
        (arith, is_friend-be_friend id k s.client, is_friend-update e (be_friend id s.client) k)

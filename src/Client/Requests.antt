-- ===== src/Client/Requests.antt =====
-- msg-server/client/friends.go: `C2SAddFriend`, `C2SAgreeBecomeFriend` and `C2SReadFriendReq`. The dates
-- that mysql stores beside a request are left out.
pub mod Friendship
pub mod Filing
pub mod Keeps
use instant_message.Prelude.{ℕ, String, ◌==◌, Bool, true, false, not, ◌&&◌, Option, none, some}
use instant_message.Client.{is_friend, be_friend}
use instant_message.Client.Session.{
  Env, Row, found, no_rows, Session, M, ◌>>=◌, ◌>>◌, stop, when, gets, modify, call, ask, read_now,
  run, send, mq, publish, reject, friend_with_self, add_friend_param, add_friend_mysql_write,
  already_friends, unmarshal_add_friend, unmarshal_agree_become_friend, agree_no_record,
  agree_read_error, agree_already_friends, agree_mysql_write, get_brief_info, get_portrait,
  select_friend_req, insert_friend_req, delete_friend_req, insert_friend_verification, set_add,
  friend_set, mq_add_friend, mq_agree_become_friend, add_friend_ack, agree_become_friend,
  read_friend_req, agree_become_friend_event, read_friend_req_event,
}
use instant_message.Client.Saving.{save_contact_info, save_friend_info_to_redis}

-- msg_struct.C2SAddFriend and C2SAgreeBecomeFriend.
pub record FriendMsg : Type 0 where
  pub sender_id : ℕ
  pub receiver_id : ℕ
  pub msg_timestamp : ℕ

abbrev pub is_found : Row → Bool
is_found found = true
is_found _ = false

abbrev pub is_no_rows : Row → Bool
is_no_rows no_rows = true
is_no_rows _ = false

abbrev pub or_empty : Option String → String
or_empty none = ""
or_empty (some t) = t

module _ (e : Env) where
  -- An error of the queue is only logged.
  abbrev pub announce_request : {R : Type 0} → FriendMsg → M R (Unit {0})
  announce_request req = do
    name ← gets (λ c. c.nick_name)
    time ← read_now e
    call (
        mq req.receiver_id
          (mq_add_friend req.sender_id req.receiver_id req.msg_timestamp name time))
    call (send (add_friend_ack req.sender_id req.receiver_id req.msg_timestamp))

  unfoldable pub c2s_add_friend : (parsed : Bool) → FriendMsg → Session → Session
  c2s_add_friend parsed req = run do
    when (not parsed) (reject unmarshal_add_friend req.msg_timestamp)
    me ← gets (λ c. c.account_id)
    when (me == req.receiver_id) (reject friend_with_self req.msg_timestamp)
    known ← ask e.ok (get_brief_info req.receiver_id)
    when (not known) (reject add_friend_param req.msg_timestamp)
    friend ← gets (λ c. is_friend c req.receiver_id)
    when friend (reject already_friends req.msg_timestamp)
    earlier ← ask e.row (select_friend_req req.receiver_id req.sender_id)
    when (is_found earlier) (do announce_request req; stop tt)
    inserted ←
        ask (λ t c. e.ok t c && not (e.affected t c == 0))
          (insert_friend_req req.receiver_id req.sender_id)
    when (not inserted) (reject add_friend_mysql_write req.msg_timestamp)
    announce_request req

  pub c2s_agree_become_friend : (parsed : Bool) → FriendMsg → Session → Session
  c2s_agree_become_friend parsed req = run do
    when (not parsed) (reject unmarshal_agree_become_friend req.msg_timestamp)
    me ← gets (λ c. c.account_id)
    request ← ask e.row (select_friend_req me req.sender_id)
    when (is_no_rows request) (reject agree_no_record req.msg_timestamp)
    when (not (is_found request)) (reject agree_read_error req.msg_timestamp)
    when (me == req.sender_id) (reject friend_with_self req.msg_timestamp)
    friend ← gets (λ c. is_friend c req.sender_id)
    when friend (reject agree_already_friends req.msg_timestamp)
    inserted ← ask e.ok (insert_friend_verification req.sender_id me)
    when (not inserted) (reject agree_mysql_write req.msg_timestamp)
    modify (be_friend req.sender_id)
    save_contact_info e
    save_friend_info_to_redis
    call (set_add friend_set req.sender_id me)
    call (delete_friend_req me req.sender_id)
    name ← gets (λ c. c.nick_name)
    call (mq req.sender_id (mq_agree_become_friend req.sender_id me req.msg_timestamp name))
    sender_name ← ask e.text (get_brief_info req.sender_id)
    portrait ← ask e.text (get_portrait req.sender_id)
    let ack =
        agree_become_friend req.sender_id req.msg_timestamp (or_empty sender_name)
          (or_empty portrait)
    call (send ack)
    call (publish (agree_become_friend_event ack))

  pub c2s_read_friend_req : (parsed : Bool) → (sender : ℕ) → Session → Session
  c2s_read_friend_req parsed sender = run do
    when (not parsed) (stop tt)
    me ← gets (λ c. c.account_id)
    call (delete_friend_req me sender)
    call (send (read_friend_req sender))
    call (publish (read_friend_req_event (read_friend_req sender)))

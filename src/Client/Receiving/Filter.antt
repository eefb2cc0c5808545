-- ===== src/Client/Receiving/Filter.antt =====
-- Which private messages of the queue reach the user (MQMsg.go).
use instant_message.Prelude.{◌≡◌, true, some, List, [], ◌∷◌, arith, if◌then◌else◌}
use instant_message.Client.{Client, is_friend, is_black_list, get_friend_remark_name}
use instant_message.Client.Message.{ChatMessage}
use instant_message.Client.Session.{
  Call, Env, Session, start, send, recv_private_chat, is_set_member, agent_set,
}
use instant_message.Client.Receiving.{mq_private_chat_received}

-- The private messages that the user was sent, the latest first.
abbrev pub received : List Call → List ChatMessage
received [] = []
received (send (recv_private_chat m) ∷ cs) = m ∷ received cs
received (c ∷ cs) = received cs

module _ (e : Env) (m : ChatMessage) (c : Client) where
  -- A friend's message reaches the user once, under the remark name that the user gave the friend,
  -- unless the friend is on the black list: then nothing does.
  pub private_chat_from_friend :
      is_friend c m.sender_id ≡ true
      → received (mq_private_chat_received e true (some m) (start c)).trace ≡ (
          if is_black_list c m.sender_id
          then []
          else record m { sender_remark_name = get_friend_remark_name m.sender_id c } ∷ [])
  unfolding mq_private_chat_received
  private_chat_from_friend f = ground arith

  -- The call by which redis is asked whether the user is a member below the sender, and the session
  -- after the look-up that follows where it says no.
  abbrev pub member_query : Call
  member_query = is_set_member agent_set m.sender_id c.account_id

  abbrev pub queried : Session
  queried = record { client = c; trace = member_query ∷ [] }

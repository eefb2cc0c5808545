-- ===== src/Client/Tests/Groups.antt =====
-- The theorems on chat groups at a concrete user.
use instant_message.Prelude.{
  ℕ, ◌≡◌, ◌⊎◌, refl, true, false, not, ◌&&◌, ◌==◌, none, some, List, [], ◌∷◌, if◌then◌else◌,
  signed_ltb, ◌+◌,
}
use instant_message.Groups.{Groups}
use instant_message.Client.{ChatGroup, get_chat_group_last_msg_timestamp}
use instant_message.Client.Message.{word}
use instant_message.Client.GroupMessage.{GroupMessage, Member, HashItem, CreateReq, AgreeReq}
use instant_message.Client.Session.{Env, start}
use instant_message.Client.Flows.{Keeping}
use instant_message.Client.Groups.Creation.{c2s_create_chat_group}
use instant_message.Client.Groups.Creation.Invitees.{Invites, create_chat_group-Invites}
use instant_message.Client.Groups.Invitation.{c2s_invite_join_chat_group}
use instant_message.Client.Groups.Invitation.Friends.{OnlyFriends, invite-OnlyFriends}
use instant_message.Client.Groups.Talk.{c2s_group_chat}
use instant_message.Client.Groups.Talk.Signed.{GroupSigned, group_chat_signs}
use instant_message.Client.Groups.Leaving.{c2s_un_chat_group, c2s_chat_group_kick}
use instant_message.Client.Groups.Leaving.Telling.{told_of_end, end_recorded, un_tells_members}
use instant_message.Client.Groups.{member_ids}
use instant_message.Prelude.Members.{contains}
use instant_message.Client.Groups.Events.{groups_after, holds, kick_leaves}
use instant_message.Client.Groups.History.{c2s_chat_group_last_msg_time_stamp}
use instant_message.Client.Groups.History.Withdrawal.{is_below, group_timestamp_bounds}
use instant_message.Client.Tests.{calm, seven}

-- The group 3 of the user 7, with the members 7 and 9.
abbrev three : ChatGroup
three = record { chat_group_id = 3; creator = 7; group_name = "Three"; pic = "" }

abbrev member_nine : Member
member_nine = record { user_id = 9; user_nick_name = "Nine"; flag = 2; user_head_portrait_url = "" }

abbrev items : List HashItem
items =
    record { as_id = 7; as_member = none }
    ∷ record { as_id = 0; as_member = none }
    ∷ record { as_id = 9; as_member = none }
    ∷ record { as_id = 0; as_member = some member_nine }
    ∷ []

abbrev grouped : Env
grouped = record calm {
  chat_group = λ t c. some three;
  member = λ t c. some member_nine;
  hash = λ t c. some items;
}

-- The same group, created by 9.
abbrev nines : Env
nines = record grouped { chat_group = λ t c. some (record three { creator = 9 }) }

abbrev wish : CreateReq
wish = record { friend_ids = 9 ∷ []; chat_group_name = "Three"; pic_chat_group = "" }

abbrev to_group : GroupMessage
to_group = record {
  sender_id = 1;
  receive_group_id = 3;
  sender_name = "";
  sender_head_portrait_url = "";
  msg_type = word;
  text_body = "hello";
  srv_time_stamp = 0;
  with_draw = false;
  voice_message = none;
  file_message = none;
  video_message = none;
  card_message = none;
}

abbrev wanted : AgreeReq
wanted = record {
  agree_group_id = 3;
  agree_req_id = 5;
  agree_req_uid = 1;
  agree_nick_name = "Five";
}

create_chat_group-Invites_example :
    Keeping seven (Invites seven) (c2s_create_chat_group grouped true wish (start seven))
create_chat_group-Invites_example = create_chat_group-Invites grouped seven true wish

invite-OnlyFriends_example :
    Keeping seven
      (OnlyFriends seven)
      (c2s_invite_join_chat_group grouped 3 true (9 ∷ []) (start seven))
invite-OnlyFriends_example = invite-OnlyFriends grouped seven 3 true (9 ∷ [])

group_chat_signs_example :
    Keeping seven
      (GroupSigned true 7 3)
      (c2s_group_chat grouped true (some to_group) 10 (start seven))
group_chat_signs_example = group_chat_signs grouped to_group 10 seven

un_tells_members_example :
    let t = (c2s_un_chat_group grouped true 3 (start seven)).trace in
    (told_of_end 3 9 t ≡ (contains 9 (member_ids items) && not (7 == 9)))
    × (end_recorded 3 9 t ≡ contains 9 (member_ids items))
un_tells_members_example = un_tells_members grouped 3 9 seven three items refl refl refl

-- The server of the user, where the user and 9 are connected.
abbrev connected : Groups
connected = record { local = (3, (7, tt) ∷ (9, tt) ∷ []) ∷ []; commands = [] }

kick_leaves_example :
    holds 3 9 (groups_after (c2s_chat_group_kick grouped true 3 9 (start seven)).trace connected)
    ≡ (if (3 == 3) && (9 == 9) then false else holds 3 9 connected)
kick_leaves_example = kick_leaves grouped 3 9 seven three items connected refl refl refl refl 3 9

group_timestamp_bounds_example :
    let d = (c2s_chat_group_last_msg_time_stamp calm true 3 50 (start seven)).client in
    let before = get_chat_group_last_msg_timestamp 3 seven in
    let after = get_chat_group_last_msg_timestamp 3 d in
    (after ≡ before)
    ⊎ ((◌≡◌ {A = ℕ} 3 3)
        × (after ≡ some 50)
        × (signed_ltb 50 (1000 + 10000000) ≡ true)
        × (is_below before 50 ≡ true))
group_timestamp_bounds_example = group_timestamp_bounds calm true 3 50 3 seven

-- ===== src/Client/Tests/Messages.antt =====
-- The theorems on messages and on sequences of requests at a concrete user.
use instant_message.Prelude.{◌≡◌, true, some, [], ◌∷◌}
use instant_message.Client.{is_black_list}
use instant_message.Client.Session.{start}
use instant_message.Client.Keyed.{IsValid}
use instant_message.Client.Chat.{c2s_private_chat}
use instant_message.Client.Chat.Sending.{Signed, private_chat_signs}
use instant_message.Client.Session.{
  add_black_list_event, move_out_black_list_event, add_black_list as add_black_list_reply,
  move_out_black_list,
}
use instant_message.Client.Mirror.{mirror}
use instant_message.Client.Mirror.Effects.{mirror-black_list}
use instant_message.Client.Dispatch.{serve, add_black_list, delete_friend}
use instant_message.Client.Dispatch.Invariant.{serve-IsValid}
use instant_message.Client.Tests.{calm, seven, seven-IsValid, greeting}

serve-IsValid_example :
    IsValid (serve calm (add_black_list true 9 ∷ delete_friend true 9 ∷ []) (start seven)).client
serve-IsValid_example =
    serve-IsValid calm (add_black_list true 9 ∷ delete_friend true 9 ∷ []) (start seven)
      seven-IsValid

private_chat_signs_example :
    Signed 7 9 (c2s_private_chat calm true (some greeting) 10 (start seven)).trace
private_chat_signs_example = private_chat_signs calm greeting 10 seven

mirror-black_list_example :
    (is_black_list
        (mirror calm (add_black_list_event (add_black_list_reply 9)) (start seven)).client
        9
      ≡ is_black_list seven 9)
    × (is_black_list
          (mirror calm (move_out_black_list_event (move_out_black_list 9)) (start seven)).client
          9
        ≡ is_black_list seven 9)
mirror-black_list_example = mirror-black_list calm 9 9 (start seven)

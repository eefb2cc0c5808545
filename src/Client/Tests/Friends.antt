-- ===== src/Client/Tests/Friends.antt =====
-- The theorems on friends, requests and the black list at a concrete user.
use instant_message.Prelude.{◌≡◌, refl, true, false, ◌==◌, ◌&&◌, if◌then◌else◌, arith}
use instant_message.Prelude.GoMap.{lookup}
use instant_message.Client.{is_friend, is_black_list}
use instant_message.Client.Session.{start, black_list_set, friend_set}
use instant_message.Client.Redis.{in_set}
use instant_message.Client.BlackList.{c2s_add_friend_black_list}
use instant_message.Client.BlackList.Agreement.{add_black_list_agrees}
use instant_message.Client.Deletion.{c2s_delete_friend, c2s_confirm_delete_friend}
use instant_message.Client.Deletion.Outcome.{
  committed, other_contact, delete_friend_all_or_nothing, confirm_delete_friend_all_or_nothing,
}
use instant_message.Client.Requests.{c2s_agree_become_friend}
use instant_message.Client.Requests.Friendship.{agree_become_friend_mutual}
use instant_message.Client.Tests.{calm, seven, seven-IsValid, from_five}

add_black_list_agrees_example :
    let s = c2s_add_friend_black_list calm true 9 (start seven) in
    in_set calm black_list_set (is_black_list seven 9) 7 9 s.trace ≡ is_black_list s.client 9
add_black_list_agrees_example = add_black_list_agrees calm true 9 9 seven (λ t. refl)

delete_friend_all_or_nothing_example :
    let s = c2s_delete_friend calm true 9 (start seven) in
    (is_friend s.client 9 ≡ (if committed calm s.trace && 9 == 9 then false else is_friend seven 9))
    × (other_contact 9 9 s.client ≡ other_contact 9 9 seven)
delete_friend_all_or_nothing_example = delete_friend_all_or_nothing calm true 9 9 seven

confirm_delete_friend_all_or_nothing_example :
    let s = c2s_confirm_delete_friend calm true 9 (start seven) in
    (is_friend s.client 9 ≡ (if committed calm s.trace && 9 == 9 then false else is_friend seven 9))
    × (other_contact 9 9 s.client ≡ other_contact 9 9 seven)
confirm_delete_friend_all_or_nothing_example =
    confirm_delete_friend_all_or_nothing calm true 9 9 seven

agree_become_friend_mutual_example :
    let s = c2s_agree_become_friend calm true from_five (start seven) in
    (in_set calm friend_set false 7 5 s.trace ≡ true)
    × (in_set calm friend_set false 5 7 s.trace ≡ true)
unfolding is_friend lookup
agree_become_friend_mutual_example =
    agree_become_friend_mutual calm from_five seven seven-IsValid (λ t a. refl) refl
      (λ p. absurd (omega (arith, p))) refl false

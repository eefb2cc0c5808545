-- ===== src/Client/Tests/Accounts.antt =====
-- The theorems on the account at a concrete user.
use instant_message.Prelude.GoMap.{lookup}
use instant_message.Prelude.{◌≡◌, refl, true, some, none, if◌then◌else◌, [], ◌∷◌}
use instant_message.Prelude.Members.{contains}
use instant_message.Client.{Client, is_friend, get_chat_group_ids}
use instant_message.Client.GroupMessage.{Member}
use instant_message.Client.Session.{Env, start}
use instant_message.Client.Account.{c2s_rename}
use instant_message.Client.Account.Renaming.{name_in, rename_reaches_groups}
use instant_message.Client.Account.Searching.{c2s_find_user}
use instant_message.Client.Account.Searching.Shown.{urls_shown, find_user_hides}
use instant_message.Client.Tests.{calm, seven}

abbrev member_seven : Member
member_seven = record {
  user_id = 7;
  user_nick_name = "Seven";
  flag = 2;
  user_head_portrait_url = "";
}

-- The user is a member of the group 3.
abbrev grouped_seven : Client
grouped_seven = record seven {
  chat_groups = (3, record { chat_group_id = 3; creator = 9; group_name = "Three"; pic = "" }) ∷ [];
}

abbrev with_member : Env
with_member = record calm { member = λ t c. some member_seven }

rename_reaches_groups_example :
    let s = c2s_rename with_member true "Septimus" (start grouped_seven) in
    (s.client.nick_name ≡ "Septimus")
    × (name_in 3 7 s.trace
        ≡ (if contains 3 (get_chat_group_ids grouped_seven) then some "Septimus" else none))
rename_reaches_groups_example =
    rename_reaches_groups with_member grouped_seven "Septimus" refl refl (λ t g h. refl) (λ m. refl)
      3

-- The account 9 has posted a picture, and has listed everybody.
abbrev with_pictures : Env
with_pictures = record calm {
  text = λ t c. none;
  user_row = λ t c. some (record { account_id = 9; user_name = "nine"; nick_name = "Nine" });
  set_ids = λ t c. some (20 ∷ []);
  post_brief = λ t c. some (some (record { kind = 2; urls = some ("picture" ∷ []) }));
}

find_user_hides_example :
    urls_shown 9 (c2s_find_user with_pictures true "9" (start seven)).trace ≡ []
unfolding is_friend lookup
find_user_hides_example =
    find_user_hides with_pictures seven 9 (λ t k a b. refl) (λ t k a b. refl) refl true "9"

-- ===== src/Client/Tests/Weibos.antt =====
-- The theorems on posts at a concrete user.
use instant_message.Prelude.{ℕ, ◌≡◌, ◌≤◌, refl, true, false, length, none, some, [], ◌∷◌}
use instant_message.Client.WeiboMessage.{Weibo, WeiboRow, ReplyWeibo, PublishReq, stored}
use instant_message.Client.Session.{
  Call, Env, start, is_set_member, friend_set, dont_look_weibo_set, forbidden_look_weibo_set,
}
use instant_message.Client.Flows.{Yields}
use instant_message.Client.Weibo.{is_near}
use instant_message.Client.Weibo.Publishing.{c2s_publish_weibo, c2s_delete_weibo}
use instant_message.Client.Weibo.Publishing.Telling.{NewsOf, publish_tells_friends}
use instant_message.Client.Weibo.Publishing.Deleting.{deletes_other, delete_weibo-OwnOnly}
use instant_message.Client.Weibo.Liking.{c2s_like_weibo}
use instant_message.Client.Weibo.Liking.Storing.{keeps_like, like_kept_iff_near}
use instant_message.Client.Weibo.Replying.{c2s_reply_weibo}
use instant_message.Client.Weibo.Replying.Refusing.{is_refused, reply_never_refused}
use instant_message.Client.Weibo.Settings.{
  c2s_dont_look_friend_weibo, c2s_forbidden_friend_look_weibo,
}
use instant_message.Client.Weibo.Settings.Excluding.{Holds, exclusion_changes_friends}
use instant_message.Client.Weibo.Browsing.{c2s_browse_all_weibo, c2s_browse_someone_weibo}
use instant_message.Client.Weibo.Browsing.Loop.{Each, all_shown}
use instant_message.Client.Weibo.Browsing.Shown.{ShownToUser, browse_all_shows}
use instant_message.Client.Weibo.Browsing.Someone.{ShownOf, browse_someone_shows}
use instant_message.Client.Weibo.Settling.{like_write, write, Settled, weibo_writes_settle}
use instant_message.Client.Tests.{calm, seven}

abbrev morning : Weibo
morning = record {
  weibo_id = 20;
  publisher_id = 9;
  publisher_nick_name = "Nine";
  content_type = 1;
  text = "good morning";
  url_bin = [];
  srv_timestamp = 900;
}

abbrev among_friends : Call → ℕ
among_friends (is_set_member friend_set a b) = 1
among_friends c = 0

-- The only post is 9's; everybody is a friend of everybody, and on no black list.
abbrev with_posts : Env
with_posts = record calm {
  affected = λ t c. among_friends c;
  weibo = λ t c. stored morning;
  posts = λ t c. record { publisher = 9; post = 20 } ∷ [];
}

browse_all_shows_example :
    let shown = all_shown (c2s_browse_all_weibo with_posts true 0 (start seven)).trace in
    Each (ShownToUser with_posts (λ t k a b. refl) (λ t k a b. refl) seven) shown
    × (length shown ≤ 12)
browse_all_shows_example =
    browse_all_shows with_posts (λ t k a b. refl) (λ t k a b. refl) seven true 0

browse_someone_shows_example :
    ShownOf with_posts
      (λ t k a b. refl)
      (λ t k a b. refl)
      seven
      9
      (all_shown (c2s_browse_someone_weibo with_posts true 9 0 (start seven)).trace)
browse_someone_shows_example =
    browse_someone_shows with_posts (λ t k a b. refl) (λ t k a b. refl) seven true 9 0

exclusion_changes_friends_example :
    Holds calm seven
      (9 ∷ 5 ∷ [])
      true
      9
      false
      (λ t d. refl)
      dont_look_weibo_set
      (c2s_dont_look_friend_weibo calm true (9 ∷ 5 ∷ []) true (start seven)).trace
    × Holds calm seven
        (9 ∷ 5 ∷ [])
        true
        9
        false
        (λ t d. refl)
        forbidden_look_weibo_set
        (c2s_forbidden_friend_look_weibo calm true (9 ∷ 5 ∷ []) true (start seven)).trace
exclusion_changes_friends_example =
    exclusion_changes_friends calm seven (9 ∷ 5 ∷ []) true 9 false (λ t d. refl)

weibo_writes_settle_example :
    Yields
      (λ ok. Settled calm 7 (start seven))
      (λ r t. true ≡ false)
      (write calm 7 (like_write 20 9) (start seven))
weibo_writes_settle_example = weibo_writes_settle calm 7 (like_write 20 9) (start seven) refl

abbrev evening : PublishReq
evening = record {
  content_type = 1;
  text = "good evening";
  text_length = 12;
  url = [];
  weibo_id = 3;
}

publish_tells_friends_example :
    NewsOf calm seven evening 9 (c2s_publish_weibo calm true evening (start seven)).trace
publish_tells_friends_example =
    publish_tells_friends calm seven evening refl refl refl (λ t d. refl) 9

delete_weibo-OwnOnly_example :
    deletes_other none (c2s_delete_weibo with_posts true 20 (start seven)).trace ≡ false
delete_weibo-OwnOnly_example = delete_weibo-OwnOnly with_posts seven 20

-- The post 20 was published by 5.
abbrev posted : WeiboRow
posted = record { account_id = 5; weibo_id = 20; msg_content = "hello"; thumbup_times = 0 }

abbrev with_row : Env
with_row = record calm { weibo_row = λ t c. some (some posted) }

like_kept_iff_near_example :
    keeps_like 5 20 7 (c2s_like_weibo with_row true 20 9 (start seven)).trace ≡ is_near seven 9
like_kept_iff_near_example = like_kept_iff_near with_row seven 20 9 (λ t d. refl) (some posted) refl

abbrev comment : ReplyWeibo
comment = record {
  weibo_id = 20;
  weibo_publisher_id = 9;
  commented_id = 0;
  be_commented_id = 0;
  be_commentator_id = 5;
  commentator_id = 5;
  comment_content = "hello";
  comment_time_stamp = 0;
}

reply_never_refused_example :
    is_refused (c2s_reply_weibo with_posts true 5000 (some comment) (start seven)).trace ≡ false
reply_never_refused_example = reply_never_refused with_posts true 5000 (some comment) seven

-- ===== src/Client/Weibo/Replying/Refusing.antt =====
-- What a reply is not refused for: `C2SReplyWeibo` (weibo.go).
use instant_message.Prelude.{
  ℕ, ◌≡◌, refl, Bool, true, false, not, Option, none, some, List, [], ◌∷◌, arith,
}
use instant_message.Client.{Client}
use instant_message.Client.WeiboMessage.{
  Weibo, ReplyWeibo, Fetched, missing, garbled, stored, commentor_is_not_friend,
  comment_is_too_long, reply_internal, get_readers, get_weibo, new_comment_id,
}
use instant_message.Client.Session.{
  Call, Env, Session, M, when, ◌>>◌, ◌>>=◌, read_clock, start, send, error_code, weibo_error,
  weibo_call,
}
use instant_message.Client.Groups.{each}
use instant_message.Client.Flows.{Within, Within-final, Yields-bind}
use instant_message.Client.Weibo.{weibo_reject, readers}
use instant_message.Client.Weibo.Replying.{
  reply_if_found, reply_weibo_db, reply_weibo_rds, tell_reader, tell_reply, reply_numbered,
  reply_found, reply_to, c2s_reply_weibo,
}

-- Whether the user is told that who wrote the comment is no friend, or that the comment is too long.
abbrev pub is_refused : List Call → Bool
is_refused [] = false
is_refused (send (error_code (weibo_error commentor_is_not_friend) k) ∷ cs) = true
is_refused (send (error_code (weibo_error comment_is_too_long) k) ∷ cs) = true
is_refused (c ∷ cs) = is_refused cs

abbrev pub Quiet : Session → Type 0
Quiet t = is_refused t.trace ≡ false

-- A part that goes on where the one before it did not fail.
unless_failed-Quiet :
    (worked : Bool) (m : M (Unit {0}) (Unit {0})) (s : Session)
    → Quiet s
    → Within Quiet (m s)
    → Within Quiet ((when (not worked) (weibo_reject reply_internal) >> m) s)
unless_failed-Quiet true m s h f = f
unless_failed-Quiet false m s h f = ground (arith, h)

module _ (e : Env) where
  each-is_refused :
      (c : Client) (w : Weibo) (r : ReplyWeibo) (ids : List ℕ) (t : List Call)
      → is_refused (each (tell_reader e c w r) ids t) ≡ is_refused t
  each-is_refused c w r [] t = refl
  each-is_refused c w r (id ∷ ids) t =
      ground (arith, each-is_refused c w r ids (tell_reader e c w r id t))

  tell_reply-Quiet :
      (w : Weibo) (r : ReplyWeibo) (ids : Option (List ℕ)) (s : Session)
      → Quiet s
      → Within Quiet (tell_reply e w r ids s)
  unfolding tell_reply
  tell_reply-Quiet w r none s h = ground (arith, h)
  tell_reply-Quiet w r (some ids) s h = ground (arith, h, each-is_refused s.client w r ids s.trace)

  reply_weibo_db-Quiet :
      (me : ℕ) (w : Weibo) (r : ReplyWeibo) (s : Session)
      → Quiet s
      → Within {R = Unit {0}} Quiet (reply_weibo_db e me w r s)
  unfolding reply_weibo_db
  reply_weibo_db-Quiet me w r s h = ground (arith, h)

  reply_weibo_rds-Quiet :
      (me : ℕ) (w : Weibo) (r : ReplyWeibo) (s : Session)
      → Quiet s
      → Within {R = Unit {0}} Quiet (reply_weibo_rds e me w r s)
  unfolding reply_weibo_rds
  reply_weibo_rds-Quiet me w r s h = ground (arith, h)

  abbrev tell : Weibo → ReplyWeibo → M (Unit {0}) (Unit {0})
  tell w r = readers e w.weibo_id w.publisher_id >>= λ ids. tell_reply e w r ids

  tell-Quiet : (w : Weibo) (r : ReplyWeibo) (s : Session) → Quiet s → Within Quiet (tell w r s)
  tell-Quiet w r s h =
      let asked : Call = weibo_call (get_readers w.publisher_id w.weibo_id) in
      tell_reply-Quiet w r (e.set_ids s.trace asked) (record s { trace = asked ∷ s.trace }) h

  abbrev cache : (me : ℕ) → Weibo → ReplyWeibo → M (Unit {0}) (Unit {0})
  cache me w r = reply_weibo_rds e me w r >>= λ cached.
      when (not cached) (weibo_reject reply_internal) >> tell w r

  cache-Quiet :
      (me : ℕ) (w : Weibo) (r : ReplyWeibo) (s : Session) → Quiet s → Within Quiet (cache me w r s)
  cache-Quiet me w r s h =
      Yields-bind (λ b. Quiet) (λ u. Quiet) (λ u. Quiet) (reply_weibo_rds e me w r)
        (λ cached. when (not cached) (weibo_reject reply_internal) >> tell w r) s
        (reply_weibo_rds-Quiet me w r s h)
        (λ cached t q. unless_failed-Quiet cached (tell w r) t q (tell-Quiet w r t q))

  reply_numbered-Quiet :
      (r : ReplyWeibo) (found : Fetched) (s : Session)
      → Quiet s
      → Within Quiet (reply_numbered e r found s)
  unfolding reply_numbered
  reply_numbered-Quiet r missing s h = ground (arith, h)
  reply_numbered-Quiet r garbled s h = ground (arith, h)
  reply_numbered-Quiet r (stored w) s h =
      let me = s.client.account_id in
      Yields-bind (λ b. Quiet) (λ u. Quiet) (λ u. Quiet) (reply_weibo_db e me w r)
        (λ kept. when (not kept) (weibo_reject reply_internal) >> cache me w r) s
        (reply_weibo_db-Quiet me w r s h)
        (λ kept t q. unless_failed-Quiet kept (cache me w r) t q (cache-Quiet me w r t q))

  reply_found-Quiet :
      (length : ℕ) (body : ReplyWeibo) (found : Fetched) (s : Session)
      → Quiet s
      → Within Quiet (reply_found e length body found s)
  unfolding reply_found
  reply_found-Quiet length body found s h =
      let asked : List Call = weibo_call new_comment_id ∷ s.trace in
      let r : ReplyWeibo = record body {
        commentator_id = s.client.account_id;
        commented_id = e.uid s.trace;
        comment_time_stamp = e.now asked;
      } in
      ground (arith, h, reply_numbered-Quiet r found (record s { trace = read_clock ∷ asked }) h)

  reply_if_found-Quiet :
      (length : ℕ) (body : ReplyWeibo) (found : Fetched) (s : Session)
      → Quiet s
      → Within Quiet (reply_if_found e length body found s)
  reply_if_found-Quiet length body missing s h = ground (arith, h)
  reply_if_found-Quiet length body garbled s h = reply_found-Quiet length body garbled s h
  reply_if_found-Quiet length body (stored w) s h = reply_found-Quiet length body (stored w) s h

  -- No reply is refused since who wrote the comment is no friend of the user, nor since the comment is too
  -- long, whatever the message, the friends and the answers of mysql and redis.
  pub reply_never_refused :
      (parsed : Bool) (length : ℕ) (body : Option ReplyWeibo) (c : Client)
      → is_refused (c2s_reply_weibo e parsed length body (start c)).trace ≡ false
  unfolding c2s_reply_weibo reply_to
  reply_never_refused false length body c = refl
  reply_never_refused true length none c = refl
  reply_never_refused true length (some body) c =
      let asked : Call = weibo_call (get_weibo body.weibo_publisher_id body.weibo_id) in
      let s : Session = record { client = c; trace = asked ∷ [] } in
      let found = e.weibo [] asked in
      Within-final Quiet (reply_if_found e length body found s)
        (reply_if_found-Quiet length body found s refl)

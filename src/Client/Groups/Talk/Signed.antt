-- ===== src/Client/Groups/Talk/Signed.antt =====
-- In whose name `C2SGroupChat` (chatGroup.go) stores a message and passes it on.
use instant_message.Prelude.{
  ℕ, ◌≡◌, refl, Bool, true, false, Option, none, some, is_some, List, [], ◌∷◌, arith,
}
use instant_message.Client.{Client}
use instant_message.Client.Message.{is_known, is_blank}
use instant_message.Client.GroupMessage.{
  GroupMessage, HashItem, get_group_info, get_member, get_all_members, store_group_chat, chat_event,
}
use instant_message.Client.Session.{
  Call, Env, Session, start, group_call, publish, group_event, user_online, get_push_info,
  get_portrait, read_clock,
}
use instant_message.Client.Chat.{or_else}
use instant_message.Client.Flows.{Yields, Yields-bind, Within, Within-final, Keeping}
use instant_message.Client.Groups.{member_ids}
use instant_message.Client.Groups.Talk.{
  Receivers, device_of, gather, deliver_group, spread, fill_group_card, store_and_spread,
  fill_and_store, sign_and_store, check_group_chat, add_receiver, c2s_group_chat,
}

-- A message of `me` to the group, of a known type and with a text.
abbrev pub IsSigned : (me group : ℕ) → GroupMessage → Type 0
IsSigned me group m =
    (m.sender_id ≡ me)
    × (m.receive_group_id ≡ group)
    × (is_known m.msg_type ≡ true)
    × (is_blank m.text_body ≡ false)

-- What is stored or passed on is signed, and `me` is a member.
abbrev pub GroupSigned : (member : Bool) (me group : ℕ) → List Call → Type 0
GroupSigned member me group [] = Unit
GroupSigned member me group (group_call (store_group_chat g m ts) ∷ cs) =
    (g ≡ group)
    × (ts ≡ m.srv_time_stamp)
    × (member ≡ true)
    × IsSigned me group m
    × GroupSigned member me group cs
GroupSigned member me group (publish (group_event (chat_event m)) ∷ cs) =
    (member ≡ true) × IsSigned me group m × GroupSigned member me group cs
GroupSigned member me group (c ∷ cs) = GroupSigned member me group cs

module _ (e : Env) (c : Client) (Q : List Call → Type 0)
    (asks_online : (t : List Call) (id : ℕ) → Q t → Q (user_online id ∷ t))
    (asks_device : (t : List Call) (id : ℕ) → Q t → Q (get_push_info id ∷ t)) where
  pub gather-Keeping :
      (ids : List ℕ) (r : Receivers) (s : Session)
      → Keeping c Q s
      → Within (Keeping c Q) (gather e ids r s)
  unfolding gather
  gather-Keeping [] r s h = h
  gather-Keeping (id ∷ ids) r s (h, q) =
      Yields-bind (λ r. Keeping c Q) (λ info. Keeping c Q) (λ r. Keeping c Q)
        (device_of e (e.ok s.trace (user_online id)) id)
        (λ info. gather e ids (add_receiver info r)) (record s { trace = user_online id ∷ s.trace })
        (asked (e.ok s.trace (user_online id)) (record s { trace = user_online id ∷ s.trace })
          (h, asks_online s.trace id q))
        (λ info t k. gather-Keeping ids (add_receiver info r) t k)
    where
      asked :
          (online : Bool) (t : Session)
          → Keeping c Q t
          → Within (Keeping c Q) (device_of e online id t)
      asked true t k = k
      asked false t (k, l) = (k, asks_device t.trace id l)

module _ (e : Env) (c : Client) (member : Bool) (group time : ℕ) where
  abbrev Signs : Session → Type 0
  Signs = Keeping c (GroupSigned member c.account_id group)

  deliver_group-Signs :
      (m : GroupMessage) (r : Receivers) (s : Session)
      → IsSigned c.account_id group m
      → member ≡ true
      → Signs s
      → Within Signs (deliver_group e m time r s)
  unfolding deliver_group
  deliver_group-Signs m r s i b h = ground arith

  spread-Signs :
      (m : GroupMessage) (items : Option (List HashItem)) (s : Session)
      → IsSigned c.account_id group m
      → member ≡ true
      → Signs s
      → Within Signs (spread e m time items s)
  unfolding spread
  spread-Signs m none s i b h = h
  spread-Signs m (some items) s i b h =
      let nobody : Receivers = record { android = []; ios = [] } in
      Yields-bind (λ r. Signs) (λ r. Signs) (λ r. Signs) (gather e (member_ids items) nobody)
        (deliver_group e m time) s
        (gather-Keeping e c (GroupSigned member c.account_id group) (λ t id q. q) (λ t id q. q)
          (member_ids items) nobody s h)
        (λ r t. deliver_group-Signs m r t i b)

  store_and_spread-Signs :
      (m : GroupMessage) (s : Session)
      → IsSigned c.account_id group m
      → member ≡ true
      → Signs s
      → Within Signs (store_and_spread e m time s)
  unfolding store_and_spread
  store_and_spread-Signs m s i b h =
      let asked = group_call (get_all_members m.receive_group_id) in
      let stored = group_call (store_group_chat m.receive_group_id m m.srv_time_stamp) ∷ s.trace in
      ground (arith, spread-Signs m (e.hash stored asked) (record s { trace = asked ∷ stored }) i b)

  fill_group_card-Signs :
      (m : GroupMessage) (s : Session)
      → IsSigned c.account_id group m
      → Signs s
      → Yields
          (λ sent t. IsSigned c.account_id group sent × Signs t)
          (λ r. Signs)
          (fill_group_card e m s)
  unfolding fill_group_card
  fill_group_card-Signs m s i h = ground arith

  fill_and_store-Signs :
      (m : GroupMessage) (s : Session)
      → IsSigned c.account_id group m
      → member ≡ true
      → Signs s
      → Within Signs (fill_and_store e m time s)
  unfolding fill_and_store
  fill_and_store-Signs m s i b h =
      Yields-bind (λ r. Signs) (λ sent t. IsSigned c.account_id group sent × Signs t) (λ r. Signs)
        (fill_group_card e m) (λ sent. store_and_spread e sent time) s
        (fill_group_card-Signs m s i h) (λ sent t (j, k). store_and_spread-Signs sent t j b k)

  sign_and_store-Signs :
      (m : GroupMessage) (s : Session)
      → m.receive_group_id ≡ group
      → is_known m.msg_type ≡ true
      → is_blank m.text_body ≡ false
      → member ≡ true
      → Signs s
      → Within Signs (sign_and_store e m time s)
  unfolding sign_and_store
  sign_and_store-Signs m s g k b y h =
      let portrait = get_portrait s.client.account_id in
      let asked = read_clock ∷ s.trace in
      let signed = record m {
        sender_id = s.client.account_id;
        sender_name = s.client.nick_name;
        srv_time_stamp = e.now s.trace;
        sender_head_portrait_url = or_else (e.text asked portrait) "";
      } in
      ground (arith, fill_and_store-Signs signed (record s { trace = portrait ∷ asked }))

module _ (e : Env) (m : GroupMessage) (time : ℕ) (c : Client) where
  -- Whether redis knows the user as a member of the group that the message names.
  abbrev pub knows_member : Bool
  knows_member = is_some (
      e.member (group_call (get_group_info m.receive_group_id) ∷ [])
        (group_call (get_member m.receive_group_id c.account_id)))

  abbrev Signing : Session → Type 0
  Signing = Signs e c knows_member m.receive_group_id time

  check_group_chat-Signs :
      Yields
        (λ u t.
          (is_known m.msg_type ≡ true)
          × (is_blank m.text_body ≡ false)
          × (knows_member ≡ true)
          × Signing t)
        (λ r. Signing)
        (check_group_chat e m (start c))
  unfolding check_group_chat
  check_group_chat-Signs = ground arith

  -- Whatever a group message claims, what is stored of it and what is passed on to the members names the
  -- user as the sender, is of a known type, has a text and stands under the group that it names, and
  -- this only where redis knows the user as a member of that group. The client stays as it was.
  pub group_chat_signs :
      Keeping c
        (GroupSigned knows_member c.account_id m.receive_group_id)
        (c2s_group_chat e true (some m) time (start c))
  unfolding c2s_group_chat
  group_chat_signs = Within-final Signing _ (
      Yields-bind (λ r. Signing) _ (λ r. Signing) (check_group_chat e m)
        (λ u. sign_and_store e m time) (start c) check_group_chat-Signs
        (λ u t (k, b, y, h).
          sign_and_store-Signs e c knows_member m.receive_group_id time m t refl k b y h))

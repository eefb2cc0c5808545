-- ===== src/Client/Groups/Talk/Keeps.antt =====
-- `C2SGroupChat` (chatGroup.go) leaves the client as it was.
use instant_message.Prelude.{
  ℕ, ◌≡◌, refl, Bool, true, false, Option, none, some, List, [], ◌∷◌, arith,
}
use instant_message.Client.{Client}
use instant_message.Client.GroupMessage.{GroupMessage, HashItem, get_all_members, store_group_chat}
use instant_message.Client.Session.{Env, Session, group_call, get_portrait, read_clock}
use instant_message.Client.Chat.{or_else}
use instant_message.Client.Flows.{Yields-bind, Within, Within-final, Keeping}
use instant_message.Client.Groups.{member_ids}
use instant_message.Client.Groups.Talk.{
  Receivers, gather, deliver_group, spread, store_and_spread, fill_group_card, fill_and_store,
  sign_and_store, check_group_chat, c2s_group_chat,
}
use instant_message.Client.Groups.Talk.Signed.{gather-Keeping}

module _ (e : Env) (c : Client) (time : ℕ) where
  abbrev Kept : Session → Type 0
  Kept = Keeping c (λ t. Unit)

  spread-Kept :
      (m : GroupMessage) (items : Option (List HashItem)) (s : Session)
      → Kept s
      → Within Kept (spread e m time items s)
  unfolding spread deliver_group
  spread-Kept m none s h = h
  spread-Kept m (some items) s h =
      let nobody : Receivers = record { android = []; ios = [] } in
      Yields-bind (λ r. Kept) (λ r. Kept) (λ r. Kept) (gather e (member_ids items) nobody)
        (deliver_group e m time) s
        (gather-Keeping e c (λ t. Unit) (λ t id q. tt) (λ t id q. tt) (member_ids items) nobody s h)
        (λ r t k. ground (arith, k))

  store_and_spread-Kept :
      (m : GroupMessage) (s : Session) → Kept s → Within Kept (store_and_spread e m time s)
  unfolding store_and_spread
  store_and_spread-Kept m s h =
      let asked = group_call (get_all_members m.receive_group_id) in
      let stored = group_call (store_group_chat m.receive_group_id m m.srv_time_stamp) ∷ s.trace in
      ground (arith, spread-Kept m (e.hash stored asked) (record s { trace = asked ∷ stored }))

  fill_group_card-Kept :
      (m : GroupMessage) (s : Session) → Kept s → Within Kept (fill_group_card e m s)
  unfolding fill_group_card
  fill_group_card-Kept m s h = ground arith

  fill_and_store-Kept :
      (m : GroupMessage) (s : Session) → Kept s → Within Kept (fill_and_store e m time s)
  unfolding fill_and_store
  fill_and_store-Kept m s h =
      Yields-bind (λ r. Kept) (λ r. Kept) (λ r. Kept) (fill_group_card e m)
        (λ sent. store_and_spread e sent time) s (fill_group_card-Kept m s h) store_and_spread-Kept

  sign_and_store-Kept :
      (m : GroupMessage) (s : Session) → Kept s → Within Kept (sign_and_store e m time s)
  unfolding sign_and_store
  sign_and_store-Kept m s h =
      let portrait = get_portrait s.client.account_id in
      let asked = read_clock ∷ s.trace in
      let signed = record m {
        sender_id = s.client.account_id;
        sender_name = s.client.nick_name;
        srv_time_stamp = e.now s.trace;
        sender_head_portrait_url = or_else (e.text asked portrait) "";
      } in
      ground (arith, fill_and_store-Kept signed (record s { trace = portrait ∷ asked }))

  check_group_chat-Kept :
      (m : GroupMessage) (s : Session) → Kept s → Within Kept (check_group_chat e m s)
  unfolding check_group_chat
  check_group_chat-Kept m s h = ground arith

pub group_chat-client :
    (e : Env) (parsed : Bool) (m : Option GroupMessage) (time : ℕ) (s : Session)
    → (c2s_group_chat e parsed m time s).client ≡ s.client
unfolding c2s_group_chat
group_chat-client e false m time s = refl
group_chat-client e true none time s = refl
group_chat-client e true (some m) time s =
    let kept = Kept e s.client time in
    (Within-final kept _ (
      Yields-bind (λ r. kept) (λ u. kept) (λ r. kept) (check_group_chat e m)
        (λ u. sign_and_store e m time) s (check_group_chat-Kept e s.client time m s (refl, tt))
        (λ u. sign_and_store-Kept e s.client time m))).0

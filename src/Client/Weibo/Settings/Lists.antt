-- ===== src/Client/Weibo/Settings/Lists.antt =====
-- What the lists that the settings of weiboAllowQuery.go answer with leave as it was.
use instant_message.Prelude.{ℕ, Bool, true, false, Option, none, some, List, [], ◌∷◌, ◌++◌, arith}
use instant_message.Client.{Client}
use instant_message.Client.WeiboMessage.{BriefInfo, WeiboReply, dont_look_ack, forbidden_ack}
use instant_message.Client.Weibo.{weibo_answer}
use instant_message.Client.Session.{
  Call, Env, Session, Key, send, weibo_reply, scoped, pure, get_brief_info, get_set_members,
  dont_look_weibo_set, forbidden_look_weibo_set,
}
use instant_message.Client.Flows.{Yields-bind, Within, Yields-scoped, Keeping}
use instant_message.Client.Weibo.Settings.{
  brief_infos, infos_of, get_list, or_no_name, answer_dont_look, finish_dont_look, finish_forbidden,
  or_none,
}

-- A statement on the calls that the queries of a list do not change.
module _ (e : Env) (c : Client) (Q : List Call → Type 0)
    (on_info : (t : List Call) (id : ℕ) → Q t → Q (get_brief_info id ∷ t))
    (on_members : (t : List Call) (key : Key) (id : ℕ) → Q t → Q (get_set_members key id ∷ t)) where
  brief_infos-Keeping :
      (ids : List ℕ) (infos : List BriefInfo) (s : Session)
      → Keeping c Q s
      → Within (Keeping c Q) (brief_infos e ids infos s)
  unfolding brief_infos
  brief_infos-Keeping [] infos s h = h
  brief_infos-Keeping (id ∷ ids) infos s h =
      let asked = get_brief_info id in
      let info : BriefInfo = record {
        account_id = e.brief_id s.trace asked;
        nick_name = or_no_name (e.text s.trace asked);
      } in
      let t = record s { trace = asked ∷ s.trace } in
      ground (arith, h, on_info s.trace id h.1, brief_infos-Keeping ids (infos ++ info ∷ []) t)

  infos_of-Keeping :
      (ids : Option (List ℕ)) (s : Session)
      → Keeping c Q s
      → Within (Keeping c Q) (infos_of e {R = Unit {0}} ids s)
  unfolding infos_of
  infos_of-Keeping none s h = h
  infos_of-Keeping (some ids) s h =
      Yields-bind (λ (r : Unit {0}). Keeping c Q) (λ i. Keeping c Q) (λ i. Keeping c Q)
        (scoped (brief_infos e ids [])) (λ infos. pure (some infos)) s
        (Yields-scoped (Unit {0}) (λ i. Keeping c Q) (λ r. Keeping c Q) (brief_infos e ids [] s)
          (brief_infos-Keeping ids [] s h))
        (λ i t k. k)

  pub get_list-Keeping :
      (key : Key) (s : Session)
      → Keeping c Q s
      → Within (Keeping c Q) (get_list e {R = Unit {0}} key s)
  unfolding get_list
  get_list-Keeping key s h =
      let asked = get_set_members key s.client.account_id in
      infos_of-Keeping (e.set_ids s.trace asked) (record s { trace = asked ∷ s.trace })
        (h.0, on_members s.trace key s.client.account_id h.1)

module _ (e : Env) (c : Client) (Q : List Call → Type 0)
    (on_info : (t : List Call) (id : ℕ) → Q t → Q (get_brief_info id ∷ t))
    (on_members : (t : List Call) (key : Key) (id : ℕ) → Q t → Q (get_set_members key id ∷ t))
    (on_reply : (t : List Call) (r : WeiboReply) → Q t → Q (send (weibo_reply r) ∷ t)) where
  -- What follows the commands of a setting.
  pub after_dont_look :
      (ok : Bool) (s : Session) → Keeping c Q s → Within (Keeping c Q) (finish_dont_look e ok s)
  unfolding finish_dont_look
  after_dont_look false s h = h
  after_dont_look true s h =
      Yields-bind (λ r. Keeping c Q) (λ i. Keeping c Q) (λ i. Keeping c Q)
        (get_list e dont_look_weibo_set) (answer_dont_look) s
        (get_list-Keeping e c Q on_info on_members dont_look_weibo_set s h) answered
    where
      answered :
          (infos : Option (List BriefInfo)) (t : Session)
          → Keeping c Q t
          → Within (Keeping c Q) (answer_dont_look infos t)
      answered none t k = k
      answered (some infos) t k = (k.0, on_reply t.trace (dont_look_ack infos) k.1)

  pub after_forbidden :
      (ok : Bool) (s : Session) → Keeping c Q s → Within (Keeping c Q) (finish_forbidden e ok s)
  unfolding finish_forbidden
  after_forbidden false s h = h
  after_forbidden true s h =
      Yields-bind (λ r. Keeping c Q) (λ i. Keeping c Q) (λ i. Keeping c Q)
        (get_list e forbidden_look_weibo_set)
        (λ infos. weibo_answer (forbidden_ack (or_none infos))) s
        (get_list-Keeping e c Q on_info on_members forbidden_look_weibo_set s h)
        (λ infos t k. (k.0, on_reply t.trace (forbidden_ack (or_none infos)) k.1))

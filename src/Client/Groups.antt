-- ===== src/Client/Groups.antt =====
-- msg-server/client/chatGroup.go: what its handlers share. A handler of a chat group takes whether the
-- message was unmarshalled, and what it reads of the message.
pub mod Creation
pub mod Joining
pub mod Invitation
pub mod Leaving
pub mod Talk
pub mod History
pub mod Receiving
pub mod Events
pub mod Loading
use instant_message.Prelude.{ℕ, Bool, Option, none, some, List, [], ◌∷◌, is_some}
use instant_message.Client.GroupMessage.{
  GroupCall, GroupError, GroupEvent, GroupMq, GroupReply, HashItem, Member, get_member,
}
use instant_message.Client.Session.{
  Call, Env, M, next, call, ask, reject, send, publish, mq, group_call, group_error, group_event,
  group_reply, mq_group,
}

abbrev pub group_reject : {A : Type 0} → GroupError → M (Unit {0}) A
group_reject code = reject (group_error code) 0

-- Calls whose results are only logged.
abbrev pub ask_group : {R : Type 0} → GroupCall → M R (Unit {0})
ask_group c = call (group_call c)

abbrev pub answer : {R : Type 0} → GroupReply → M R (Unit {0})
answer r = call (send (group_reply r))

abbrev pub publish_group : {R : Type 0} → GroupEvent → M R (Unit {0})
publish_group event = call (publish (group_event event))

-- `GetChatGroupMember`, compared with nil.
abbrev pub is_group_member : {R : Type 0} → Env → (group user : ℕ) → M R Bool
is_group_member e group user =
    ask (λ t c. is_some (e.member t c)) (group_call (get_member group user))

-- HGETALL replies key, value, key, value; the loops skip one kind or the other.
abbrev pub member_ids : List HashItem → List ℕ
member_ids [] = []
member_ids (key ∷ []) = key.as_id ∷ []
member_ids (key ∷ value ∷ rest) = key.as_id ∷ member_ids rest

abbrev pub member_values : List HashItem → List (Option Member)
member_values [] = []
member_values (key ∷ []) = []
member_values (key ∷ value ∷ rest) = value.as_member ∷ member_values rest

-- A loop whose body only makes calls and looks at no result.
abbrev pub each : {A : Type 0} → (A → List Call → List Call) → List A → List Call → List Call
each body [] t = t
each body (x ∷ xs) t = each body xs (body x t)

abbrev pub for_each : {R A : Type 0} → List A → (A → List Call → List Call) → M R (Unit {0})
for_each xs body s = next tt (record s { trace = each body xs s.trace })

abbrev pub queue_to : GroupMq → ℕ → List Call → List Call
queue_to m to t = mq to (mq_group m) ∷ t

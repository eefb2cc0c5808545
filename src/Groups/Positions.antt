-- ===== src/Groups/Positions.antt =====
-- The groups in memory against the redis sets of positions (onlineChatGroupManager.go), for the
-- handlers of login, join, leaving a group and dissolving it. The handlers ignore what redis answers.
use instant_message.Prelude.{
  ℕ, ◌≡◌, refl, ◌∙◌, not, ◌&&◌, Bool, true, false, ◌||◌, Option, none, some, List, [], ◌∷◌, arith,
  ◌==◌, if◌then◌else◌,
}
use instant_message.Prelude.GoMap.{has_key, lookup, has_key-insert, has_key-remove, insert, remove}
use instant_message.Prelude.Members.{contains}
use instant_message.Groups.{
  Local, Members, Command, add_position, remove_position, expire, client_join, Groups, empty,
  entered, enter, is_new, take_position, take_positions, join_chat_group, un_chat_group, cancelled,
  cancel_chat_group, login_loop, new_groups, local_chat_group_member_login,
}

-- Redis, for these commands: whether it executes a command, given after the earlier ones, and whether the
-- positions of a group have expired since, which the ticker is to prevent.
pub record Redis : Type 0 where
  pub executes : List Command → Command → Bool
  pub lapses : List Command → (group : ℕ) → Bool

-- What a command that redis executes makes of whether it lists this server under the group `g`.
abbrev effect : ℕ → Command → Bool → Bool
effect g (add_position k) before = if k == g then true else before
effect g (remove_position k) before = if k == g then false else before
effect g (expire k) before = before
effect g (client_join a k) before = before

-- Whether redis lists this server under the group, after the commands: where it executes them all and
-- nothing expires, and in general.
abbrev listed : ℕ → List Command → Bool
listed g [] = false
listed g (c ∷ cs) = effect g c (listed g cs)

abbrev pub in_position : Redis → ℕ → List Command → Bool
in_position r g [] = false
in_position r g (c ∷ cs) =
    let before = in_position r g cs in
    not (r.lapses (c ∷ cs) g) && (if r.executes cs c then effect g c before else before)

in_position-listed :
    (r : Redis)
    → ((cs : List Command) (c : Command) → r.executes cs c ≡ true)
    → ((cs : List Command) (g : ℕ) → r.lapses cs g ≡ false)
    → (g : ℕ) (cs : List Command) → in_position r g cs ≡ listed g cs
in_position-listed r works lasts g [] = refl
in_position-listed r works lasts g (c ∷ cs) =
    ground (arith, works cs c, lasts (c ∷ cs) g, in_position-listed r works lasts g cs)

listed-take_positions :
    (g : ℕ) (gs : List ℕ) (cs : List Command)
    → listed g (take_positions gs cs) ≡ (contains g gs || listed g cs)
unfolding contains
listed-take_positions g [] cs = refl
listed-take_positions g (k ∷ gs) cs =
    ground (arith, listed-take_positions g gs (take_position k cs))

entered-has_key :
    (a k g : ℕ) (m : Local) (o : Option Members)
    → has_key g (entered o a k m) ≡ (if k == g then true else has_key g m)
entered-has_key a k g m (some ms) = has_key-insert k g (insert a tt ms) m
entered-has_key a k g m none = has_key-insert k g ((a, tt) ∷ []) m

pub enter-has_key :
    (a k g : ℕ) (m : Local) → has_key g (enter a k m) ≡ (if k == g then true else has_key g m)
unfolding enter
enter-has_key a k g m = entered-has_key a k g m (lookup k m)

login_loop-has_key :
    (a g : ℕ) (gs : List ℕ) (m : Local)
    → has_key g (login_loop a gs m) ≡ (contains g (new_groups a gs m) || has_key g m)
unfolding login_loop new_groups contains is_new
login_loop-has_key a g [] m = refl
login_loop-has_key a g (k ∷ gs) m =
    ground (arith, login_loop-has_key a g gs (enter a k m), enter-has_key a k g m)

-- The events of this file, each handled whole before the next.
pub data Event : Type 0 where
  logs_in : (group_ids : List ℕ) (account : ℕ) → Event
  joins leaves : (account group : ℕ) → Event
  dissolved : (group : ℕ) → Event

abbrev pub handle : Event → Groups → Groups
handle (logs_in gs a) s = local_chat_group_member_login gs a s
handle (joins a g) s = join_chat_group a g s
handle (leaves a g) s = cancel_chat_group a g s
handle (dissolved g) s = un_chat_group g s

abbrev pub after : List Event → Groups
after [] = empty
after (e ∷ earlier) = handle e (after earlier)

abbrev ListedAt : ℕ → Groups → Type 0
ListedAt g s = listed g s.commands ≡ has_key g s.local

module _ (g : ℕ) (s : Groups) (h : ListedAt g s) where
  cancelled-ListedAt :
      (a k : ℕ) (o : Option Members) → lookup k s.local ≡ o → ListedAt g (cancelled o a k s)
  cancelled-ListedAt a k (some ms) e =
      ground (arith, has_key-remove k g s.local, has_key-insert k g (remove a ms) s.local)
  cancelled-ListedAt a k none e = h

  handle-ListedAt : (e : Event) → ListedAt g (handle e s)
  unfolding local_chat_group_member_login join_chat_group cancel_chat_group un_chat_group
  handle-ListedAt (logs_in gs a) = ground (
    arith,
    listed-take_positions g (new_groups a gs s.local) s.commands,
    login_loop-has_key a g gs s.local,
  )
  handle-ListedAt (joins a k) = ground (arith, enter-has_key a k g s.local)
  handle-ListedAt (leaves a k) = cancelled-ListedAt a k (lookup k s.local) refl
  handle-ListedAt (dissolved k) = ground (arith, has_key-remove k g s.local)

after-ListedAt : (events : List Event) (g : ℕ) → ListedAt g (after events)
unfolding lookup
after-ListedAt [] g = refl
after-ListedAt (e ∷ earlier) g = handle-ListedAt g (after earlier) (after-ListedAt earlier g) e

abbrev pub AgreesAt : Redis → ℕ → Groups → Type 0
AgreesAt r g s = in_position r g s.commands ≡ has_key g s.local

-- Where redis executes every command and the positions of no group expire, redis lists this server for
-- exactly the groups that it holds in memory, after any logins, joins, departures and dissolutions, handled
-- one after the other (logouts are not among these).
pub after-AgreesAt :
    (r : Redis)
    → (works : (cs : List Command) (c : Command) → r.executes cs c ≡ true)
    → (lasts : (cs : List Command) (g : ℕ) → r.lapses cs g ≡ false) → (events : List Event) (g : ℕ)
    → AgreesAt r g (after events)
after-AgreesAt r works lasts events g =
    in_position-listed r works lasts g (after events).commands ∙ after-ListedAt events g

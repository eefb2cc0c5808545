-- ===== src/EventManager.antt =====
-- msg-server/eventmanager/eventmanager.go: the handlers of the events by event and subscriber. A subscriber's
-- name is a number, one for each name; a handler is a step on the state that the handlers share. What happens
-- to a handler that panics is left to the log and not modelled.
pub mod History
pub mod Tests
use instant_message.Prelude.{ℕ, Option, none, some, is_some, List, [], ◌∷◌, if◌then◌else◌}
use instant_message.Prelude.GoMap.{GoMap, lookup, insert, remove, has_key}

module _ {H : Type 0} where
  -- `handlers`, a map of maps.
  abbrev pub subscribe_at :
      Option (GoMap H) → (name event : ℕ) → H → GoMap (GoMap H) → GoMap (GoMap H)
  subscribe_at none name event handler m = insert event ((name, handler) ∷ []) m
  subscribe_at (some held) name event handler m =
      if has_key name held then m else insert event (insert name handler held) m

  -- Who has subscribed before keeps the first handler.
  unfoldable pub subscribe : (name event : ℕ) → H → GoMap (GoMap H) → GoMap (GoMap H)
  subscribe name event handler m = subscribe_at (lookup event m) name event handler m

  unfoldable pub un_subscribe : (name event : ℕ) → GoMap (GoMap H) → GoMap (GoMap H)
  un_subscribe name event m = remove event m

module _ {S A : Type 0} where
  abbrev pub run_all : GoMap (A → S → S) → A → S → S
  run_all [] arg s = s
  run_all ((name, handler) ∷ rest) arg s = run_all rest arg (handler arg s)

  abbrev pub publish_to : Option (GoMap (A → S → S)) → A → S → S
  publish_to none arg s = s
  publish_to (some held) arg s = run_all held arg s

  unfoldable pub publish : (event : ℕ) → A → GoMap (GoMap (A → S → S)) → S → S
  publish event arg m s = publish_to (lookup event m) arg s

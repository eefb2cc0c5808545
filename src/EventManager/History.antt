-- ===== src/EventManager/History.antt =====
-- The handlers that the event manager holds after a history of its operations (eventmanager.go).
use instant_message.Prelude.{
  ℕ, ◌≡◌, refl, ◌&&◌, Option, none, some, List, [], ◌∷◌, ◌==◌, arith, if◌then◌else◌,
}
use instant_message.Prelude.GoMap.{GoMap, lookup, insert, lookup-insert, lookup-remove}
use instant_message.EventManager.{subscribe_at, subscribe, un_subscribe}

pub data Operation (H : Type 0) : Type 0 where
  subscription : (name event : ℕ) → H → Operation H
  cancellation : (name event : ℕ) → Operation H

module _ {H : Type 0} where
  -- The operations, the latest first.
  abbrev pub after : List (Operation H) → GoMap (GoMap H)
  after [] = []
  after (subscription name event handler ∷ ops) = subscribe name event handler (after ops)
  after (cancellation name event ∷ ops) = un_subscribe name event (after ops)

  abbrev pub held_by : Option (GoMap H) → (name : ℕ) → Option H
  held_by none name = none
  held_by (some held) name = lookup name held

  abbrev pub handler_of : (name event : ℕ) → GoMap (GoMap H) → Option H
  handler_of name event m = held_by (lookup event m) name

  abbrev pub first : Option H → H → Option H
  first none handler = some handler
  first (some held) handler = some held

  -- By the history alone: the first subscription since anybody last cancelled the event.
  abbrev pub expected : (name event : ℕ) → List (Operation H) → Option H
  expected name event [] = none
  expected name event (subscription n e handler ∷ ops) =
      let before = expected name event ops in
      if e == event && n == name then first before handler else before
  expected name event (cancellation n e ∷ ops) =
      let before = expected name event ops in if e == event then none else before

  module _ (name event : ℕ) where
    lookup_one :
        (n : ℕ) (handler : H)
        → lookup name ((n, handler) ∷ []) ≡ (if n == name then some handler else none)
    unfolding lookup
    lookup_one n handler = refl

    subscribe_at-handler_of :
        (n e : ℕ) (handler : H) (m : GoMap (GoMap H)) (o : Option (GoMap H))
        → lookup e m ≡ o
        → handler_of name event (subscribe_at o n e handler m) ≡ (
            if e == event && n == name
            then first (handler_of name event m) handler
            else handler_of name event m)
    subscribe_at-handler_of n e handler m none p =
        ground (arith, lookup-insert e event ((n, handler) ∷ []) m, lookup_one n handler, p)
    subscribe_at-handler_of n e handler m (some held) p = ground (
      arith,
      lookup-insert e event (insert n handler held) m,
      lookup-insert n name handler held,
      p,
    )

    -- After any history of subscriptions and cancellations, the handler that the event manager holds for a
    -- subscriber and an event is the first that the subscriber gave since the event was last cancelled, by
    -- whichever subscriber.
    pub after-handler_of :
        (ops : List (Operation H)) → handler_of name event (after ops) ≡ expected name event ops
    unfolding subscribe un_subscribe lookup
    after-handler_of [] = refl
    after-handler_of (subscription n e handler ∷ ops) = ground (
      arith,
      subscribe_at-handler_of n e handler (after ops) (lookup e (after ops)) refl,
      after-handler_of ops,
    )
    after-handler_of (cancellation n e ∷ ops) =
        ground (arith, lookup-remove e event (after ops), after-handler_of ops)

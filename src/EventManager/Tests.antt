-- ===== src/EventManager/Tests.antt =====
-- The event manager at concrete subscribers.
use instant_message.Prelude.{ℕ, ◌≡◌, refl, List, [], ◌∷◌, ◌+◌, ◌*◌}
use instant_message.Prelude.GoMap.{lookup, insert}
use instant_message.EventManager.{subscribe, publish}
use instant_message.EventManager.History.{
  Operation, subscription, cancellation, after, handler_of, expected, after-handler_of,
}

-- The subscriber 1 asks for the event 5, is cancelled by the subscriber 2, and asks again.
abbrev history : List (Operation ℕ)
history = subscription 1 5 20 ∷ cancellation 2 5 ∷ subscription 1 5 10 ∷ []

after-handler_of_example : handler_of 1 5 (after history) ≡ expected 1 5 history
after-handler_of_example = after-handler_of 1 5 history

abbrev adding : ℕ → ℕ → ℕ
adding arg total = total + arg

abbrev doubling : ℕ → ℕ → ℕ
doubling arg total = total * 2

both_run : ◌≡◌ {A = ℕ} (publish 5 3 (subscribe 2 5 doubling (subscribe 1 5 adding [])) 4) 14
unfolding publish subscribe lookup insert
both_run = refl

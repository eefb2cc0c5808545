-- ===== src/Login/Family.antt =====
-- A value for each number, of which one is changed. It models no code of its own.
use instant_message.Prelude.{ℕ, ◌==◌, if◌then◌else◌}

abbrev pub update {ℓ} : {A : Type ℓ} → (ℕ → A) → ℕ → A → ℕ → A
update f i x j = if i == j then x else f j

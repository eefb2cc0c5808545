-- ===== src/Login/Overlap.antt =====
-- What becomes of two logins of one account that overlap.
use instant_message.Prelude.{ℕ, ◌≡◌, ◌≢◌, refl, true, none, arith}
use instant_message.Online.{get_client, kick_client}
use instant_message.Online.Contents.{get_client-remove_client}
use instant_message.Login.{
  fresh, running, Server, account, terminal, take_lock, close, remove_closed, enter, overlap, lose,
  watch, go_on, Steps, here, onward,
}
use instant_message.Login.Handover.{found}
use instant_message.Online.{Conn}

module _ (conn : ℕ → Conn) (j k : ℕ) (s : Server) where
  -- Both logins set the key, and become clients one after the other.
  both_locked : Server
  both_locked = take_lock conn k (take_lock conn j s)

  both_entered : Server
  both_entered = enter conn k (enter conn j both_locked)

  -- The first of them is closed and removed.
  first_removed : Server
  first_removed = remove_closed conn j (close conn j both_entered)

  -- Where two connections log in under one account and terminal, the place being empty, and the second sets
  -- the key while the first is at work, steps lead to a state in which the second runs and the table gives no
  -- client for it: the removal of the first takes the entry of the second.
  pub overlap_hides_client :
      s.phase j ≡ fresh
      → s.phase k ≡ fresh
      → j ≢ k
      → account conn j ≡ account conn k
      → terminal conn j ≡ terminal conn k
      → found conn j s ≡ none
      → (t : Server) × Steps conn true s t × (t.phase k ≡ running) × (found conn k t ≡ none)
  unfolding take_lock enter close remove_closed both_locked both_entered first_removed get_client
      kick_client
  overlap_hides_client fj fk distinct a t empty = (
    first_removed,
    onward
        (onward
          (onward
            (onward
              (onward (onward here (overlap j fj refl))
                (overlap k (ground (arith, fk, distinct)) refl))
              (go_on j {cli = none} (ground (arith, empty, distinct)) refl))
            (go_on k {cli = none} (ground (arith, empty, distinct, a, t)) refl))
          (lose j (ground (arith, distinct))))
        (watch j (ground arith)),
    ground (arith, distinct),
    ground (
      arith,
      a,
      t,
      get_client-remove_client (conn j) (account conn k) (terminal conn k) both_entered.table,
    ),
  )

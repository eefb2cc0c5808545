-- ===== src/Login/Progress.antt =====
-- A login can always be completed, where no two logins of one account overlap.
use instant_message.Prelude.{ℕ, ◌≡◌, refl, true, false, inl, inr, Option, none, some, arith}
use instant_message.Online.{Conn}
use instant_message.Online.Contents.{get_client-store_client}
use instant_message.Login.{
  Phase, fresh, waiting, running, closing, removed, Server, may_enter, account, terminal, close,
  remove_closed, enter, kick, watch, go_on, Reach, Steps, here, onward,
}
use instant_message.Login.Handover.{found, is_live, reach-IsOrderly}

module _ (conn : ℕ → Conn) (n : ℕ) where
  -- Some steps, in which no logins overlap, make the connection a client that is found.
  abbrev pub CanEnter : Server → Type 0
  CanEnter s =
      (t : Server) × Steps conn false s t × (t.phase n ≡ running) × (found conn n t ≡ some (conn n))

  enter_now :
      {s t : Server} (cli : Option Conn)
      → Steps conn false s t
      → t.phase n ≡ waiting cli
      → may_enter cli t.phase ≡ true
      → CanEnter s
  unfolding enter
  enter_now {t = t} cli steps f m = (
    enter conn n t,
    onward steps (go_on n f m),
    ground arith,
    ground (arith, get_client-store_client (conn n) (account conn n) (terminal conn n) t.table),
  )

  after_closing :
      {s t : Server} (cli : Conn)
      → Steps conn false s t
      → t.phase n ≡ waiting (some cli)
      → t.phase cli.serial_num ≡ closing
      → CanEnter s
  unfolding remove_closed
  after_closing {t = t} cli steps f c =
      enter_now (some cli) (onward steps (watch cli.serial_num c)) (ground (arith, f, c))
        (ground arith)

  after_kick :
      {s : Server} (cli : Conn)
      → s.phase n ≡ waiting (some cli)
      → s.phase cli.serial_num ≡ running
      → CanEnter s
  unfolding close
  after_kick cli f r =
      after_closing cli (onward here (kick n f r)) (ground (arith, f, r)) (ground arith)

  by_phase :
      {s : Server} (cli : Conn) (p : Phase)
      → s.phase n ≡ waiting (some cli)
      → s.phase cli.serial_num ≡ p
      → is_live p ≡ true
      → CanEnter s
  by_phase cli running f q l = after_kick cli f q
  by_phase cli closing f q l = after_closing cli here f q
  by_phase cli fresh f q l = absurd (ground (arith, l))
  by_phase cli (waiting c) f q l = absurd (ground (arith, l))
  by_phase cli removed f q l = absurd (ground (arith, l))

  -- As long as no two logins of one account overlap, a login that waits for the client in its place
  -- is never stuck: some steps close and remove that client and let the login become the client found.
  pub login_enters :
      {s : Server} (cli : Option Conn)
      → ((k : ℕ) → (conn k).serial_num ≡ k)
      → Reach conn false s
      → s.phase n ≡ waiting cli
      → CanEnter s
  login_enters none serial r f = enter_now none here f refl
  login_enters {s = s} (some cli) serial r f =
      let o = reach-IsOrderly conn serial r in
      elim ((o.awaits n (some cli) f).1) [
        | inl p ↦ by_phase cli (s.phase cli.serial_num) f refl ((o.found_live n cli p).1)
        | inr (p, m) ↦ enter_now (some cli) here f m
      ]

-- ===== src/Login.antt =====
-- msg-server/msgServerApp/clientLogin.go: how a login takes the place of the client that is connected under
-- the same account and terminal, with `KickClient`, `WatchCloseSignal` and `RemoveClient` of
-- msg-server/clientManager/clientManager.go and `Close` of msg-server/client/client.go. A connection is its
-- serial number; `conn` says under which account and terminal it logs in. The steps of the goroutines
-- interleave in any order.
pub mod Family
pub mod Handover
pub mod Progress
pub mod Overlap
pub mod Codes
pub mod Offline
pub mod Admission
pub mod Tests
use instant_message.Prelude.{ℕ, ◌≡◌, Bool, true, false, Option, none, some, []}
use instant_message.Online.{Conn, Table, kick_client, store_client, remove_client}
use instant_message.Login.Family.{update}

-- What a connection is at: `waiting` holds the client whose `done` signal the login waits for, `running`
-- is a client of which `Close` has not been called, `closing` one that it has, and `removed` one whose
-- `done` signal is closed, or a connection that was refused.
pub data Phase : Type 0 where
  fresh : Phase
  waiting : Option Conn → Phase
  running closing removed : Phase

-- `held` is the login that last set the key in redis that should lock an account, while the key stands.
pub record Server : Type 0 where
  pub table : Table
  pub held : ℕ → Option ℕ
  pub phase : ℕ → Phase

abbrev pub idle_server : Server
idle_server = record { table = []; held = λ a. none; phase = λ n. fresh }

-- Whether the client that a login waits for is gone.
abbrev pub is_removed : Phase → Bool
is_removed removed = true
is_removed _ = false

abbrev pub may_enter : Option Conn → (ℕ → Phase) → Bool
may_enter none phase = true
may_enter (some cli) phase = is_removed (phase cli.serial_num)

abbrev pub is_waiting : Phase → Bool
is_waiting (waiting cli) = true
is_waiting _ = false

module _ (conn : ℕ → Conn) where
  abbrev pub account : ℕ → ℕ
  account n = (conn n).account_id

  abbrev pub terminal : ℕ → ℕ
  terminal n = (conn n).terminal_type

  -- `Setex`, which overwrites the key, and `KickClient`: the login waits for the client in its place.
  unfoldable pub take_lock : ℕ → Server → Server
  take_lock n s = record s {
    held = update s.held (account n) (some n);
    phase = update s.phase n (waiting (kick_client (account n) (terminal n) s.table));
  }

  -- Where redis fails, the connection is closed.
  unfoldable pub refuse : ℕ → Server → Server
  refuse n s = record s { phase = update s.phase n removed }

  -- `Close`, by the goroutine that `KickClient` starts or because the connection is lost.
  unfoldable pub close : ℕ → Server → Server
  close n s = record s { phase = update s.phase n closing }

  -- The goroutine of `WatchCloseSignal`: `RemoveClient`, which ends by closing `done`.
  unfoldable pub remove_closed : ℕ → Server → Server
  remove_closed n s = record s {
    table = remove_client (conn n) s.table;
    phase = update s.phase n removed;
  }

  -- What follows the wait: `NewClient`, `StoreClient`, `WatchCloseSignal` and `Run`.
  unfoldable pub enter : ℕ → Server → Server
  enter n s = record s { table = store_client (conn n) s.table; phase = update s.phase n running }

  -- The deferred `Del`, and the end of the key after its thirty seconds.
  unfoldable pub drop_lock : (account : ℕ) → Server → Server
  drop_lock a s = record s { held = update s.held a none }

  -- `Setex` does not ask for the key, so that it keeps no login out. Whether logins of one account may overlap
  -- is `overlaps`: a login then sets the key while another is at work, and the key of a login at work ends, or
  -- is deleted by another login.
  pub data Step (overlaps : Bool) (s : Server) : Server → Type 0 where
    lock : (n : ℕ) → s.phase n ≡ fresh → s.held (account n) ≡ none → Step overlaps s (take_lock n s)
    overlap : (n : ℕ) → s.phase n ≡ fresh → overlaps ≡ true → Step overlaps s (take_lock n s)
    fail : (n : ℕ) → s.phase n ≡ fresh → Step overlaps s (refuse n s)
    kick :
        (n : ℕ) {cli : Conn}
        → s.phase n ≡ waiting (some cli)
        → s.phase cli.serial_num ≡ running
        → Step overlaps s (close cli.serial_num s)
    lose : (n : ℕ) → s.phase n ≡ running → Step overlaps s (close n s)
    watch : (n : ℕ) → s.phase n ≡ closing → Step overlaps s (remove_closed n s)
    go_on :
        (n : ℕ) {cli : Option Conn}
        → s.phase n ≡ waiting cli
        → may_enter cli s.phase ≡ true
        → Step overlaps s (enter n s)
    unlock :
        (n : ℕ)
        → s.held (account n) ≡ some n
        → is_waiting (s.phase n) ≡ false
        → Step overlaps s (drop_lock (account n) s)
    lapse : (a : ℕ) → overlaps ≡ true → Step overlaps s (drop_lock a s)

  pub data Reach (overlaps : Bool) : Server → Type 0 where
    start : Reach overlaps idle_server
    later : {s t : Server} → Reach overlaps s → Step overlaps s t → Reach overlaps t

  -- Any number of steps from a state.
  pub data Steps (overlaps : Bool) (s : Server) : Server → Type 0 where
    here : Steps overlaps s s
    onward : {t u : Server} → Steps overlaps s t → Step overlaps t u → Steps overlaps s u

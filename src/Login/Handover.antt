-- ===== src/Login/Handover.antt =====
-- What every interleaving of logins, lost connections and removals keeps, as long as no two
-- logins of one account overlap.
use instant_message.Prelude.{ℕ, ◌≡◌, Bool, true, false, ◌⊎◌, Option, none, some, arith}
use instant_message.Prelude.GoMap.{lookup}
use instant_message.Online.{Conn, kick_client, get_client}
use instant_message.Online.Contents.{get_client-store_client, get_client-remove_client}
use instant_message.Login.{
  Phase, fresh, waiting, running, closing, Server, idle_server, may_enter, is_waiting, account,
  terminal, take_lock, refuse, close, remove_closed, enter, drop_lock, Step, lock, overlap, fail,
  kick, lose, watch, go_on, unlock, lapse, Reach, start, later,
}

-- A client that is in the table, or has been taken out of its place but not yet removed.
abbrev pub is_live : Phase → Bool
is_live running = true
is_live closing = true
is_live _ = false

module _ (conn : ℕ → Conn) where
  abbrev pub found : ℕ → Server → Option Conn
  found n s = get_client (account conn n) (terminal conn n) s.table

  -- What a waiting login waits for is still in the table, or is gone and has left the place empty.
  abbrev Awaits : ℕ → Server → Type 0
  Awaits n s =
      (cli : Option Conn)
      → s.phase n ≡ waiting cli
      → (s.held (account conn n) ≡ some n)
        × ((found n s ≡ cli) ⊎ ((found n s ≡ none) × (may_enter cli s.phase ≡ true)))

  -- A live client is the one found in its place, and what is found there is live.
  pub record IsOrderly (s : Server) : Type 0 where
    pub live_found : (n : ℕ) → is_live (s.phase n) ≡ true → found n s ≡ some (conn n)
    pub found_live :
        (n : ℕ) (cli : Conn)
        → found n s ≡ some cli
        → (cli ≡ conn cli.serial_num)
          × (is_live (s.phase cli.serial_num) ≡ true)
          × (cli.account_id ≡ account conn n)
          × (cli.terminal_type ≡ terminal conn n)
    pub awaits : (n : ℕ) → Awaits n s

  module _ (serial : (n : ℕ) → (conn n).serial_num ≡ n) where
    idle-IsOrderly : IsOrderly idle_server
    unfolding get_client lookup
    idle-IsOrderly = record {
      live_found = λ n l. absurd (ground (arith, l));
      found_live = λ n cli f. absurd (ground (arith, f));
      awaits = λ n cli w. absurd (ground (arith, w));
    }

    module _ {s : Server} (o : IsOrderly s) where
      lock-IsOrderly :
          (n : ℕ)
          → s.phase n ≡ fresh
          → s.held (account conn n) ≡ none
          → IsOrderly (take_lock conn n s)
      unfolding take_lock kick_client get_client
      lock-IsOrderly n f h = record {
        live_found = λ k l. ground (arith, o.live_found k, f, l);
        found_live = λ k cli p. ground (arith, o.found_live k cli p, f);
        awaits = λ k cli w. ground (arith, o.awaits k cli, o.awaits n cli, f, h, w);
      }

      lose-IsOrderly : (n : ℕ) → s.phase n ≡ running → IsOrderly (close conn n s)
      unfolding close
      lose-IsOrderly n f = record {
        live_found = λ k l. ground (arith, o.live_found k, o.live_found n, f, l);
        found_live = λ k cli p. ground (arith, o.found_live k cli p, f);
        awaits = λ k cli w. ground (arith, o.awaits k cli, f, w);
      }

      refuse-IsOrderly : (n : ℕ) → s.phase n ≡ fresh → IsOrderly (refuse conn n s)
      unfolding refuse
      refuse-IsOrderly n f = record {
        live_found = λ k l. ground (arith, o.live_found k, f, l);
        found_live = λ k cli p. ground (arith, o.found_live k cli p, f);
        awaits = λ k cli w. ground (arith, o.awaits k cli, f, w);
      }

      watch-IsOrderly : (n : ℕ) → s.phase n ≡ closing → IsOrderly (remove_closed conn n s)
      unfolding remove_closed
      watch-IsOrderly n f =
          let gone = λ (k : ℕ).
            get_client-remove_client (conn n) (account conn k) (terminal conn k) s.table in
          record {
            live_found = λ k l.
                ground (arith, gone k, o.live_found k, o.live_found n, serial n, serial k, f, l);
            found_live = λ k cli p.
                ground (arith, gone k, o.found_live k cli, o.live_found n, serial n, f, p);
            awaits =
                λ k cli w. ground (arith, gone k, o.awaits k cli, o.live_found n, serial n, f, w);
          }

      go_on-IsOrderly :
          (n : ℕ) (cli : Option Conn)
          → s.phase n ≡ waiting cli
          → may_enter cli s.phase ≡ true
          → IsOrderly (enter conn n s)
      unfolding enter
      go_on-IsOrderly n cli f m =
          let stored = λ (k : ℕ).
            get_client-store_client (conn n) (account conn k) (terminal conn k) s.table in
          let free = free_place n cli f m in
          record {
            live_found = λ k l. ground (arith, stored k, o.live_found k, serial n, free, f, l);
            found_live = λ k c p. ground (arith, stored k, o.found_live k c, serial n, free, f, p);
            awaits = λ k c w. ground (arith, stored k, o.awaits k c, o.awaits n cli, free, f, w);
          }
        where
          free_place :
              (n : ℕ) (cli : Option Conn)
              → s.phase n ≡ waiting cli
              → may_enter cli s.phase ≡ true
              → found n s ≡ none
          free_place n none f m = ground (arith, o.awaits n none, f)
          free_place n (some c) f m = ground (arith, o.awaits n (some c), o.found_live n c, f, m)

      unlock-IsOrderly :
          (n : ℕ)
          → s.held (account conn n) ≡ some n
          → is_waiting (s.phase n) ≡ false
          → IsOrderly (drop_lock conn (account conn n) s)
      unfolding drop_lock
      unlock-IsOrderly n h w = record {
        live_found = o.live_found;
        found_live = o.found_live;
        awaits = λ k cli v. ground (arith, o.awaits k cli, h, w, v);
      }

    step-IsOrderly : {s t : Server} → IsOrderly s → Step conn false s t → IsOrderly t
    step-IsOrderly o (lock n f h) = lock-IsOrderly o n f h
    step-IsOrderly o (overlap n f l) = absurd (ground (arith, l))
    step-IsOrderly o (fail n f) = refuse-IsOrderly o n f
    step-IsOrderly o (kick n {cli} f r) = lose-IsOrderly o cli.serial_num r
    step-IsOrderly o (lose n f) = lose-IsOrderly o n f
    step-IsOrderly o (watch n f) = watch-IsOrderly o n f
    step-IsOrderly o (go_on n {cli} f m) = go_on-IsOrderly o n cli f m
    step-IsOrderly o (unlock n h w) = unlock-IsOrderly o n h w
    step-IsOrderly o (lapse a l) = absurd (ground (arith, l))

    pub reach-IsOrderly : {s : Server} → Reach conn false s → IsOrderly s
    reach-IsOrderly start = idle-IsOrderly
    reach-IsOrderly (later r step) = step-IsOrderly (reach-IsOrderly r) step

    -- As long as no two logins of one account overlap, a client that has not been removed is the one that the
    -- table gives for its account and terminal, however logins, kicks, lost connections and removals interleave;
    -- two such clients of one account and terminal are the same.
    pub one_client :
        {s : Server} (j k : ℕ)
        → Reach conn false s
        → is_live (s.phase j) ≡ true
        → is_live (s.phase k) ≡ true
        → account conn j ≡ account conn k
        → terminal conn j ≡ terminal conn k
        → (found j s ≡ some (conn j)) × (j ≡ k)
    one_client j k r lj lk a t =
        let o = reach-IsOrderly r in
        (o.live_found j lj, ground (arith, o.live_found j, o.live_found k, serial j, serial k))

-- ===== src/Online/Contents.antt =====
-- The table of clients as a partial function of account and terminal, and its invariant.
use instant_message.Prelude.{
  ℕ, ◌≡◌, refl, true, false, ◌&&◌, Option, none, some, List, [], ◌∷◌, arith, ◌==◌, if◌then◌else◌,
}
use instant_message.Prelude.GoMap.{lookup, insert, remove, lookup-insert, lookup-remove, GoMap}
use instant_message.Online.{
  Conn, Table, Terminals, store_client, remove_client, get_client, is_empty, found_in,
  drop_terminal, store_at,
}

module _ {V : Type 0} (k : ℕ) where
  lookup_of_is_empty : (m : GoMap V) → is_empty m ≡ true → lookup k m ≡ none
  unfolding lookup
  lookup_of_is_empty [] h = refl
  lookup_of_is_empty (x ∷ m) h = cc

  is_empty-insert : (v : V) (m : GoMap V) → is_empty (insert k v m) ≡ false
  unfolding insert
  is_empty-insert v [] = refl
  is_empty-insert v ((j, w) ∷ m) = ground arith

  lookup_single : (j : ℕ) (v : V) → lookup k ((j, v) ∷ []) ≡ (if j == k then some v else none)
  unfolding lookup
  lookup_single j v = refl

module _ (cli : Conn) (a t : ℕ) (m : Table) where
  store_at-lookup :
      (o : Option Terminals)
      → lookup cli.account_id m ≡ o
      → found_in (lookup a (store_at o cli m)) t
        ≡ (if cli.account_id == a && cli.terminal_type == t then some cli else get_client a t m)
  unfolding get_client
  store_at-lookup (some ts) e = ground (
    arith,
    lookup-insert cli.account_id a (insert cli.terminal_type cli ts) m,
    lookup-insert cli.terminal_type t cli ts,
  )
  store_at-lookup none e = ground (
    arith,
    lookup-insert cli.account_id a ((cli.terminal_type, cli) ∷ []) m,
    lookup_single t cli.terminal_type cli,
  )

  drop_terminal-lookup :
      (o : Option Terminals) (p : Option Conn)
      → lookup cli.account_id m ≡ o
      → found_in o cli.terminal_type ≡ p
      → found_in (lookup a (drop_terminal o p cli m)) t
        ≡ (if cli.account_id == a && cli.terminal_type == t then none else get_client a t m)
  unfolding get_client
  drop_terminal-lookup (some ts) (some old) e f = ground (
    arith,
    lookup-insert cli.account_id a (remove cli.terminal_type ts) m,
    lookup-remove cli.account_id a m,
    lookup-remove cli.terminal_type t ts,
    lookup_of_is_empty t (remove cli.terminal_type ts),
  )
  drop_terminal-lookup (some ts) none e f = ground arith
  drop_terminal-lookup none p e f = ground arith

  -- A client that is stored is found under its account and terminal, in place of an earlier one; every
  -- other account and terminal keeps its client.
  pub get_client-store_client :
      get_client a t (store_client cli m)
      ≡ (if cli.account_id == a && cli.terminal_type == t then some cli else get_client a t m)
  unfolding get_client store_client
  get_client-store_client = store_at-lookup (lookup cli.account_id m) refl

  -- After a client is removed, nothing is found under its account and terminal, whichever client was
  -- stored there; every other account and terminal keeps its client.
  pub get_client-remove_client :
      get_client a t (remove_client cli m)
      ≡ (if cli.account_id == a && cli.terminal_type == t then none else get_client a t m)
  unfolding get_client remove_client
  get_client-remove_client =
      drop_terminal-lookup (lookup cli.account_id m)
        (found_in (lookup cli.account_id m) cli.terminal_type) refl refl

-- No account is listed without a terminal, so the length of the table counts online accounts.
abbrev pub NoneEmpty : Table → Type 0
NoneEmpty [] = Unit
NoneEmpty ((a, ts) ∷ m) = (is_empty ts ≡ false) × NoneEmpty m

insert-NoneEmpty :
    (a : ℕ) (ts : Terminals) (m : Table)
    → is_empty ts ≡ false
    → NoneEmpty m
    → NoneEmpty (insert a ts m)
unfolding insert
insert-NoneEmpty a ts [] h n = (h, tt)
insert-NoneEmpty a ts ((b, us) ∷ m) h n = ground (arith, insert-NoneEmpty a ts m h n.1)

remove-NoneEmpty : (a : ℕ) (m : Table) → NoneEmpty m → NoneEmpty (remove a m)
unfolding remove
remove-NoneEmpty a [] n = tt
remove-NoneEmpty a ((b, us) ∷ m) n = ground (arith, remove-NoneEmpty a m n.1)

store_at-NoneEmpty :
    (o : Option Terminals) (cli : Conn) (m : Table) → NoneEmpty m → NoneEmpty (store_at o cli m)
store_at-NoneEmpty (some ts) cli m n =
    insert-NoneEmpty cli.account_id (insert cli.terminal_type cli ts) m
      (is_empty-insert cli.terminal_type cli ts) n
store_at-NoneEmpty none cli m n = insert-NoneEmpty cli.account_id _ m refl n

drop_terminal-NoneEmpty :
    (o : Option Terminals) (p : Option Conn) (cli : Conn) (m : Table)
    → NoneEmpty m
    → NoneEmpty (drop_terminal o p cli m)
drop_terminal-NoneEmpty (some ts) (some old) cli m n = ground (
  arith,
  remove-NoneEmpty cli.account_id m n,
  insert-NoneEmpty cli.account_id (remove cli.terminal_type ts) m,
)
drop_terminal-NoneEmpty (some ts) none cli m n = n
drop_terminal-NoneEmpty none p cli m n = n

-- Logins and logouts, in the order in which they take the lock.
pub data Step : Type 0 where
  store take_out : Conn → Step

abbrev pub apply : Step → Table → Table
apply (store cli) m = store_client cli m
apply (take_out cli) m = remove_client cli m

abbrev pub history : List Step → Table
history [] = []
history (s ∷ earlier) = apply s (history earlier)

step-NoneEmpty : (s : Step) (m : Table) → NoneEmpty m → NoneEmpty (apply s m)
unfolding store_client remove_client
step-NoneEmpty (store cli) m n = store_at-NoneEmpty (lookup cli.account_id m) cli m n
step-NoneEmpty (take_out cli) m n =
    drop_terminal-NoneEmpty (lookup cli.account_id m)
      (found_in (lookup cli.account_id m) cli.terminal_type) cli m n

-- After any logins and logouts no account is listed without a client.
pub history-NoneEmpty : (steps : List Step) → NoneEmpty (history steps)
history-NoneEmpty [] = tt
history-NoneEmpty (s ∷ earlier) = step-NoneEmpty s (history earlier) (history-NoneEmpty earlier)

-- After any logins and logouts a client is found only under its own account and terminal.
pub history-get_client :
    (steps : List Step) (a t : ℕ) (cli : Conn)
    → get_client a t (history steps) ≡ some cli
    → (cli.account_id ≡ a) × (cli.terminal_type ≡ t)
unfolding get_client lookup
history-get_client [] a t cli h = cc
history-get_client (store c ∷ earlier) a t cli h =
    ground
      (arith, get_client-store_client c a t (history earlier), history-get_client earlier a t cli)
history-get_client (take_out c ∷ earlier) a t cli h =
    ground
      (arith, get_client-remove_client c a t (history earlier), history-get_client earlier a t cli)

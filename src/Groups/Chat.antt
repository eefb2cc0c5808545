-- ===== src/Groups/Chat.antt =====
-- Who is sent a message of a local chat group (`SendToLocalChatGroup`), over the clients that any
-- logins and logouts left connected.
use mathlib.Core.Path.{subst}
use native.Mathlib.Decide.{ℕ_discrete}
use instant_message.Prelude.{
  sym, ℕ, ◌≡◌, ◌≢◌, refl, true, not, ◌⊎◌, inl, inr, Option, none, some, List, [], ◌∷◌, ◌++◌, arith,
  ◌==◌,
}
use instant_message.Prelude.GoMap.{lookup}
use instant_message.Prelude.Members.{contains}
use instant_message.Online.{Conn, Table, get_client, terminal_type_app, terminal_type_web}
use instant_message.Online.Contents.{Step, history, history-get_client}
use instant_message.Groups.{Groups, sent_to, send_to_members, send_to_local_chat_group, members_of}

abbrev pub All : (Conn → Type 0) → List Conn → Type 0
All P [] = Unit
All P (x ∷ xs) = P x × All P xs

abbrev pub Among : Conn → List Conn → Type 0
Among c [] = ⊥
Among c (x ∷ xs) = (x ≡ c) ⊎ Among c xs

All-append : (P : Conn → Type 0) (xs ys : List Conn) → All P xs → All P ys → All P (xs ++ ys)
All-append P [] ys h k = k
All-append P (x ∷ xs) ys h k = (h.0, All-append P xs ys h.1 k)

All-mono : (P Q : Conn → Type 0) → ((c : Conn) → P c → Q c) → (xs : List Conn) → All P xs → All Q xs
All-mono P Q f [] h = tt
All-mono P Q f (x ∷ xs) h = (f x h.0, All-mono P Q f xs h.1)

Among-append_left : (c : Conn) (xs ys : List Conn) → Among c xs → Among c (xs ++ ys)
Among-append_left c [] ys h = absurd h
Among-append_left c (x ∷ xs) ys (inl e) = inl e
Among-append_left c (x ∷ xs) ys (inr h) = inr (Among-append_left c xs ys h)

Among-append_right : (c : Conn) (xs ys : List Conn) → Among c ys → Among c (xs ++ ys)
Among-append_right c [] ys h = h
Among-append_right c (x ∷ xs) ys h = inr (Among-append_right c xs ys h)

-- A recipient is another member of the group.
abbrev pub IsRecipient : (sender : ℕ) → List ℕ → Conn → Type 0
IsRecipient sender members c = (c.account_id ≢ sender) × (contains c.account_id members ≡ true)

module _ (steps : List Step) (sender : ℕ) where
  sent_to-IsRecipient :
      (member t : ℕ) (rest : List ℕ)
      → All
          (IsRecipient sender (member ∷ rest))
          (sent_to (get_client member t (history steps)) (not (member == sender)))
  unfolding contains
  sent_to-IsRecipient member t rest =
      go (get_client member t (history steps)) (λ c. history-get_client steps member t c)
    where
      go :
          (o : Option Conn)
          → ((c : Conn) → o ≡ some c → (c.account_id ≡ member) × (c.terminal_type ≡ t))
          → All (IsRecipient sender (member ∷ rest)) (sent_to o (not (member == sender)))
      go none h = tt
      go (some c) h = ground (arith, h c refl)

  send_to_members-IsRecipient :
      (members : List ℕ)
      → All (IsRecipient sender members) (send_to_members (history steps) sender members)
  unfolding send_to_members contains
  send_to_members-IsRecipient [] = tt
  send_to_members-IsRecipient (m ∷ rest) =
      All-append P (sent (terminal_type_app)) _ (sent_to-IsRecipient m terminal_type_app rest) (
        All-append P (sent terminal_type_web) _ (sent_to-IsRecipient m terminal_type_web rest) (
          All-mono (IsRecipient sender rest) P (λ c h. ground arith)
            (send_to_members (history steps) sender rest) (send_to_members-IsRecipient rest)))
    where
      P : Conn → Type 0
      P = IsRecipient sender (m ∷ rest)

      sent : ℕ → List Conn
      sent t = sent_to (get_client m t (history steps)) (not (m == sender))

  -- A message of a local chat group is sent to members of the group only, and never to its sender.
  pub send_to_local_chat_group-IsRecipient :
      (group : ℕ) (s : Groups)
      → All
          (IsRecipient sender (members_of (lookup group s.local)))
          (send_to_local_chat_group (history steps) sender group s)
  unfolding send_to_local_chat_group
  send_to_local_chat_group-IsRecipient group s =
      send_to_members-IsRecipient (members_of (lookup group s.local))

module _ (table : Table) (sender member : ℕ) (c : Conn) where
  sent : ℕ → ℕ → List Conn
  sent t m = sent_to (get_client m t table) (not (m == sender))

  sent-Among :
      (t : ℕ) → member ≢ sender → get_client member t table ≡ some c → Among c (sent t member)
  unfolding sent
  sent-Among t n h = ground arith

  send_to_members-Among :
      (t : ℕ) (members : List ℕ)
      → (t ≡ terminal_type_app) ⊎ (t ≡ terminal_type_web)
      → member ≢ sender
      → get_client member t table ≡ some c
      → contains member members ≡ true
      → Among c (send_to_members table sender members)
  unfolding contains send_to_members sent
  send_to_members-Among t [] w n h k = cc
  send_to_members-Among t (m ∷ ms) w n h k = elim (ℕ_discrete m member) [
    | yes e ↦
        let app = sent terminal_type_app m in
        let web = sent terminal_type_web m in
        let rest = send_to_members table sender ms in
        let hit = λ (u : ℕ) (p : t ≡ u).
          subst (λ x. Among c (sent u x)) (sym e)
            (subst (λ x. Among c (sent x member)) p (sent-Among t n h)) in
        elim w [
          | inl p ↦ Among-append_left c app (web ++ rest) (hit terminal_type_app p)
          | inr p ↦
              Among-append_right c app (web ++ rest)
                (Among-append_left c web rest (hit terminal_type_web p))
        ]
    | no d ↦ Among-append_right c (sent terminal_type_app m) _ (
        Among-append_right c (sent terminal_type_web m) _
          (send_to_members-Among t ms w n h (ground arith)))
  ]

  -- Every member but the sender gets a message of a local chat group, on each terminal on which the
  -- member is connected.
  pub send_to_local_chat_group-Among :
      (t group : ℕ) (s : Groups)
      → (t ≡ terminal_type_app) ⊎ (t ≡ terminal_type_web)
      → member ≢ sender
      → get_client member t table ≡ some c
      → contains member (members_of (lookup group s.local)) ≡ true
      → Among c (send_to_local_chat_group table sender group s)
  unfolding send_to_local_chat_group
  send_to_local_chat_group-Among t group s w n h k =
      send_to_members-Among t (members_of (lookup group s.local)) w n h k

-- ===== src/Login/Offline/Friends.antt =====
-- Whom a user has as friends after the login has settled what happened while the user was offline.
use instant_message.Prelude.{
  ℕ, suc, ◌≡◌, refl, Bool, true, false, ◌||◌, ◌&&◌, not, Option, none, some, List, [], ◌∷◌, ◌==◌,
  arith, if◌then◌else◌, is_some,
}
use instant_message.Prelude.Members.{contains, contains-append}
use instant_message.Client.{Client, is_friend, be_friend}
use instant_message.Client.Session.{Call, Env, Session, Flow, next, done, get_brief_info}
use instant_message.Client.Saving.{save_contact_info}
use instant_message.Client.Flows.{Yields, Yields-bind, Yields-weaken}
use instant_message.Client.Deletion.Outcome.{is_friend-be_friend}
use instant_message.Login.Offline.{
  befriend_all, deleted_friends, keep_known, accepted, verifications, settle_acceptances,
  handle_offline_friend_data,
}

befriend_all-is_friend :
    (ids : List ℕ) (k : ℕ) (c : Client)
    → is_friend (befriend_all ids c) k ≡ (contains k ids || is_friend c k)
unfolding contains
befriend_all-is_friend [] k c = refl
befriend_all-is_friend (id ∷ ids) k c =
    ground (arith, befriend_all-is_friend ids k (be_friend id c), is_friend-be_friend id k c)

-- How often the number occurs.
abbrev pub count : ℕ → List ℕ → ℕ
count k [] = 0
count k (j ∷ js) = if j == k then suc (count k js) else count k js

abbrev pub has_row : ℕ → List (Option ℕ) → Bool
has_row k [] = false
has_row k (none ∷ rows) = has_row k rows
has_row k (some j ∷ rows) = j == k || has_row k rows

deleted_friends-count :
    (k : ℕ) (seen : List ℕ) (rows : List (Option ℕ))
    → count k (deleted_friends seen rows)
      ≡ (if has_row k rows && not (contains k seen) then 1 else 0)
unfolding deleted_friends contains
deleted_friends-count k seen [] = refl
deleted_friends-count k seen (none ∷ rows) = deleted_friends-count k seen rows
deleted_friends-count k seen (some id ∷ rows) =
    ground (arith, deleted_friends-count k (id ∷ seen) rows)

-- Every friend who deleted the user while the user was offline is listed exactly once, however many rows name
-- the friend, and nobody else is.
pub deleted_friends_once :
    (k : ℕ) (rows : List (Option ℕ))
    → count k (deleted_friends [] rows) ≡ (if has_row k rows then 1 else 0)
unfolding contains
deleted_friends_once k rows = ground (arith, deleted_friends-count k [] rows)

abbrev pub Never : Unit {0} → Session → Type 0
Never r t = ⊥

abbrev pub is_broken : List (Option ℕ) → Bool
is_broken [] = false
is_broken (none ∷ rows) = true
is_broken (some id ∷ rows) = is_broken rows

-- Whether the rows give an acceptance of `k`: each row scans, one is that of `k`, and redis knows `k`.
abbrev pub gives : (known : ℕ → Bool) → ℕ → Option (List (Option ℕ)) → Bool
gives known k none = false
gives known k (some rows) = not (is_broken rows) && (known k && has_row k rows)

-- The friends named are those that the rows give, and the client has them and the friends of `before`.
abbrev pub Joined :
    (known : ℕ → Bool) → ℕ → Option (List (Option ℕ)) → Client → List ℕ → Session → Type 0
Joined known k rows before ids t =
    (contains k ids ≡ gives known k rows)
    × (is_friend t.client k ≡ (gives known k rows || is_friend before k))

module _ (e : Env) (known : ℕ → Bool)
    (steady : (t : List Call) (id : ℕ) → is_some (e.text t (get_brief_info id)) ≡ known id) (k : ℕ)
    (c : Client) where
  abbrev Kept : (kept : List ℕ) → List (Option ℕ) → List ℕ → Session → Type 0
  Kept kept rows out t =
      (t.client ≡ c)
      × (is_broken rows ≡ false)
      × (contains k out ≡ (contains k kept || (known k && has_row k rows)))

  abbrev Dropped : List (Option ℕ) → List ℕ → Session → Type 0
  Dropped rows out t = (t.client ≡ c) × (is_broken rows ≡ true) × (out ≡ [])

  abbrev Added : (id : ℕ) (kept : List ℕ) → List ℕ → Session → Type 0
  Added id kept out t =
      (t.client ≡ c) × (contains k out ≡ (contains k kept || (id == k && known k)))

  keep_known-Added :
      (rows : List (Option ℕ)) (id : ℕ) (b : Bool) (kept : List ℕ) (s : Session)
      → b ≡ known id
      → s.client ≡ c
      → Yields (Added id kept) (Dropped rows) (keep_known e id b kept s)
  unfolding keep_known contains
  keep_known-Added rows id false kept s b h = ground (arith, b, h)
  keep_known-Added rows id true kept s b h = ground (arith, b, h, contains-append k kept (id ∷ []))

  accepted-Kept :
      (rows : List (Option ℕ)) (kept : List ℕ) (s : Session)
      → s.client ≡ c
      → Yields (Kept kept rows) (Dropped rows) (accepted e rows kept s)
  unfolding accepted
  accepted-Kept [] kept s h = ground (arith, h)
  accepted-Kept (none ∷ rows) kept s h = (h, refl, refl)
  accepted-Kept (some id ∷ rows) kept s h =
      let asked = record s { trace = get_brief_info id ∷ s.trace } in
      Yields-bind (Dropped rows) (Added id kept) (Kept kept (some id ∷ rows))
        (keep_known e id (is_some (e.text s.trace (get_brief_info id))) kept) (accepted e rows)
        asked (keep_known-Added rows id _ kept asked (steady s.trace id) h)
        (λ more t a.
          Yields-weaken (λ out u d. ground (arith, a, d)) (λ out u d. d) (accepted e rows more t)
            (accepted-Kept rows more t a.0))

  abbrev Given : Option (List (Option ℕ)) → List ℕ → Session → Type 0
  Given rows out t = (t.client ≡ c) × (contains k out ≡ gives known k rows)

  scoped-Given :
      (rows : List (Option ℕ)) (f : Flow (List ℕ) (List ℕ))
      → Yields (Kept [] rows) (Dropped rows) f
      → Yields {R = Unit {0}}
          (Given (some rows))
          Never
          (elim f [ next a t ↦ next a t | done a t ↦ next a t ])
  unfolding contains
  scoped-Given rows (next a t) h = ground (arith, h)
  scoped-Given rows (done a t) h = ground (arith, h)

  verifications-Given :
      (rows : Option (List (Option ℕ))) (s : Session)
      → s.client ≡ c
      → Yields (Given rows) Never (verifications e rows s)
  unfolding verifications contains
  verifications-Given none s h = (h, refl)
  verifications-Given (some rows) s h =
      scoped-Given rows (accepted e rows [] s) (accepted-Kept rows [] s h)

  settle-Joined :
      (rows : Option (List (Option ℕ))) (ids : List ℕ) (s : Session)
      → Given rows ids s
      → Yields (Joined known k rows c) Never (settle_acceptances e ids s)
  unfolding settle_acceptances save_contact_info is_friend
  settle-Joined rows ids s h = ground (arith, h, befriend_all-is_friend ids k s.client)

-- Where redis says the same of an account whenever it is asked, a login goes on with the accounts that
-- accepted while the user was offline: those of the rows whose brief record redis has, and nobody where
-- mysql fails or a row does not scan. The client has then these and the friends that it had before, and no
-- other.
pub offline_acceptances :
    (e : Env) (known : ℕ → Bool)
    → (steady : (t : List Call) (id : ℕ) → is_some (e.text t (get_brief_info id)) ≡ known id)
    → (rows : Option (List (Option ℕ))) (k : ℕ) (s : Session)
    → Yields (Joined known k rows s.client) Never (handle_offline_friend_data e rows s)
unfolding handle_offline_friend_data
offline_acceptances e known steady rows k s =
    Yields-bind Never (Given e known steady k s.client rows) (Joined known k rows s.client)
      (verifications e rows) (settle_acceptances e) s
      (verifications-Given e known steady k s.client rows s refl)
      (settle-Joined e known steady k s.client rows)

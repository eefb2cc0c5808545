-- ===== src/Login/Offline.antt =====
-- msg-server/msgServerApp/clientLogin.go: the acceptances and deletions of friends that happened while the
-- user was offline, as `clientLogin` and `userNameLogin` settle them. The rows are as mysql gives them; dates
-- and portraits are left out of the answer, and so are the requests of others, which it only lists.
pub mod Friends
use instant_message.Prelude.{
  ℕ, Bool, true, false, not, Option, none, some, List, [], ◌∷◌, ◌++◌, ◌==◌, if◌then◌else◌, is_some,
}
use instant_message.Prelude.Members.{contains}
use instant_message.Client.{Client, be_friend}
use instant_message.Client.Session.{
  Env, Session, M, next, ◌>>=◌, ◌>>◌, pure, stop, when, gets, modify, call, ask, scoped,
  get_brief_info, get_portrait, delete_friend_verifications,
}
use instant_message.Client.Saving.{save_contact_info, save_friend_info_to_redis}
use instant_message.Client.Deletion.{delete_friend}

abbrev pub befriend_all : List ℕ → Client → Client
befriend_all [] c = c
befriend_all (id ∷ ids) c = befriend_all ids (be_friend id c)

-- Each sender once, in the order of the rows; a row that does not scan is left out.
unfoldable pub deleted_friends : (seen : List ℕ) → List (Option ℕ) → List ℕ
unfolding contains
deleted_friends seen [] = []
deleted_friends seen (none ∷ rows) = deleted_friends seen rows
deleted_friends seen (some id ∷ rows) =
    let rest = deleted_friends (id ∷ seen) rows in if contains id seen then rest else id ∷ rest

abbrev pub nonempty : List ℕ → Bool
nonempty [] = false
nonempty (id ∷ ids) = true

module _ (e : Env) where
  -- An acceptance is kept where redis has the brief record of who accepted.
  keep_known : ℕ → (known : Bool) → List ℕ → M (List ℕ) (List ℕ)
  keep_known id false kept = pure kept
  keep_known id true kept = do call (get_portrait id); pure (kept ++ id ∷ [])

  -- A row that does not scan leaves no acceptance at all.
  accepted : List (Option ℕ) → List ℕ → M (List ℕ) (List ℕ)
  unfolding keep_known
  accepted [] kept = pure kept
  accepted (none ∷ rows) kept = stop []
  accepted (some id ∷ rows) kept = do
    known ← ask (λ t c. is_some (e.text t c)) (get_brief_info id)
    more ← keep_known id known kept
    accepted rows more

  verifications : {R : Type 0} → Option (List (Option ℕ)) → M R (List ℕ)
  unfolding accepted
  verifications none = pure []
  verifications (some rows) = scoped (accepted rows [])

  pub settle_acceptances : List ℕ → M (Unit {0}) (List ℕ)
  settle_acceptances ids = do
    modify (befriend_all ids)
    when (nonempty ids) do
      save_contact_info e
      save_friend_info_to_redis
      me ← gets (λ c. c.account_id)
      call (delete_friend_verifications me)
    pure ids

  -- The friends who accepted while the user was offline.
  pub handle_offline_friend_data : Option (List (Option ℕ)) → M (Unit {0}) (List ℕ)
  unfolding verifications settle_acceptances
  handle_offline_friend_data rows = do ids ← verifications rows; settle_acceptances ids

  delete_if_same : (deleted ver : ℕ) → M (Unit {0}) (Unit {0})
  unfolding delete_friend
  delete_if_same deleted ver = when (deleted == ver) do done ← delete_friend e deleted; pure tt

  delete_matching : (deleted : ℕ) → List ℕ → M (Unit {0}) (Unit {0})
  unfolding delete_if_same
  delete_matching deleted [] = pure tt
  delete_matching deleted (ver ∷ vers) =
      delete_if_same deleted ver >>= λ u. delete_matching deleted vers

  -- Who accepted and then deleted the user is no friend.
  pub reconcile : (deleted vers : List ℕ) → M (Unit {0}) (Unit {0})
  unfolding delete_matching
  reconcile [] vers = pure tt
  reconcile (deleted ∷ rest) vers = delete_matching deleted vers >>= λ u. reconcile rest vers

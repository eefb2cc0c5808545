-- ===== src/Client/Deletion/Transaction.antt =====
-- How the transactions of friends.go end: each that is begun should be committed or rolled back before
-- it is closed.
use instant_message.Prelude.{
  ℕ, ◌≡◌, ◌≢◌, Bool, true, false, List, [], ◌∷◌, arith, ◌&&◌, if◌then◌else◌,
}
use instant_message.Client.{Client, is_friend, be_not_friend}
use instant_message.Client.Session.{
  Call, Env, send, start, tx_begin, tx_commit, tx_rollback, tx_close, set_remove, friend_set,
  update_contact_list,
}
use instant_message.Client.Saving.{bytes}
use instant_message.Client.Deletion.{c2s_delete_friend, c2s_confirm_delete_friend, bare_items}

-- The transaction of a session: `left_open` is closed with its outcome undecided.
pub data Tx : Type 0 where
  idle opened settled left_open : Tx

abbrev close : Tx → Tx
close opened = left_open
close t = t

abbrev pub tx_state : Env → List Call → Tx
tx_state e [] = idle
tx_state e (tx_begin ∷ cs) = if e.ok cs tx_begin then opened else tx_state e cs
tx_state e (tx_commit ∷ cs) = if e.ok cs tx_commit then settled else tx_state e cs
tx_state e (tx_rollback ∷ cs) = settled
tx_state e (tx_close ∷ cs) = close (tx_state e cs)
tx_state e (c ∷ cs) = tx_state e cs

-- Whether the user was sent anything.
abbrev pub answered : List Call → Bool
answered [] = false
answered (send r ∷ cs) = true
answered (c ∷ cs) = answered cs

module _ (e : Env) (parsed : Bool) (id : ℕ) (c : Client) where
  -- Whatever fails, `C2SDeleteFriend` settles the transaction that it begins.
  pub delete_friend_settles :
      let s = c2s_delete_friend e parsed id (start c) in
      tx_state e s.trace
      ≡ (if parsed && (is_friend c id && e.ok [] tx_begin) then settled else idle)
  unfolding c2s_delete_friend
  delete_friend_settles = ground arith

  -- The call by which a confirmation saves the contact list.
  abbrev pub confirm_update : Call
  confirm_update =
      update_contact_list (bytes (e.marshal (bare_items (be_not_friend id c).contacts)))
        (be_not_friend id c).account_id

  abbrev pub before_update : List Call
  before_update = tx_begin ∷ set_remove friend_set c.account_id id ∷ []

  -- A confirmation whose transaction begins and whose update of the account then fails is closed with
  -- no rollback and with no message to the user.
  pub confirm_delete_friend_leaves_open :
      is_friend c id ≡ true
      → e.ok (set_remove friend_set c.account_id id ∷ []) tx_begin ≡ true
      → e.ok before_update confirm_update ≡ false
      → let s = c2s_confirm_delete_friend e true id (start c) in
        (tx_state e s.trace ≡ left_open) × (answered s.trace ≡ false)
  unfolding c2s_confirm_delete_friend
  confirm_delete_friend_leaves_open f b u = ground arith

  -- A confirmation whose update of the account does not fail settles its transaction.
  pub confirm_delete_friend_settles :
      e.ok before_update confirm_update ≡ true
      → let s = c2s_confirm_delete_friend e parsed id (start c) in tx_state e s.trace ≢ left_open
  unfolding c2s_confirm_delete_friend
  confirm_delete_friend_settles u = ground arith

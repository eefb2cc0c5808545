-- ===== src/Client/Deletion.antt =====
-- msg-server/client/friends.go: `C2SDeleteFriend`, by which a user drops a friend, and
-- `C2SConfirmDeleteFriend` with `DeleteFriend`, by which the dropped friend does the same. The bodies
-- between `tx.Begin` and the deferred rollback are functions of their own, which return `errCode`.
pub mod Outcome
pub mod Transaction
pub mod Keeps
use instant_message.Prelude.{ℕ, ◌==◌, Bool, true, false, not, List, [], ◌∷◌}
use instant_message.Prelude.GoMap.{GoMap}
use instant_message.Client.{Contact, is_friend, be_friend, be_not_friend}
use instant_message.Client.Session.{
  Env, Session, M, ◌>>=◌, ◌>>◌, pure, stop, when, gets, modify, call, ask, scoped, run, send, mq,
  publish, reject, error_code, unmarshal_delete_friend, unmarshal_confirm_delete_friend,
  delete_is_not_friend, delete_internal, confirm_is_not_friend, confirm_internal, tx_begin,
  tx_commit, tx_rollback, tx_close, update_contact_list, insert_friend_delete,
  confirm_friend_delete, set_remove, friend_set, mq_delete_friend, recv_delete_friend,
  confirm_delete_friend, delete_friend_event, confirm_delete_friend_event,
}
use instant_message.Client.Saving.{bytes}

-- The contact list as both transactions serialize it: without the remark names.
abbrev pub bare_items : GoMap Contact → List Contact
bare_items [] = []
bare_items ((k, v) ∷ m) = record { account_id = k; remark_name = "" } ∷ bare_items m

module _ (e : Env) where
  delete_in_tx : ℕ → M ℕ ℕ
  delete_in_tx id = do
    modify (be_not_friend id)
    buf ← gets (λ c. bytes (e.marshal (bare_items c.contacts)))
    me ← gets (λ c. c.account_id)
    updated ← ask e.ok (update_contact_list buf me)
    when (not updated) (do modify (be_friend id); stop 1)
    inserted ← ask e.ok (insert_friend_delete me id)
    when (not inserted) (do modify (be_friend id); stop 2)
    committed ← ask e.ok tx_commit
    when (not committed)
        do modify (be_friend id); call (send (error_code delete_internal 0)); stop 3
    modify (λ c. record c { contact_list = buf })
    removed ← ask e.ok (set_remove friend_set me id)
    when (not removed) (do call (send (error_code delete_internal 0)); stop 0)
    call (mq id (mq_delete_friend me))
    call (send (recv_delete_friend id))
    call (publish (delete_friend_event (recv_delete_friend id)))
    pure 0

  pub c2s_delete_friend : (parsed : Bool) → ℕ → Session → Session
  unfolding delete_in_tx
  c2s_delete_friend parsed id = run do
    when (not parsed) (reject unmarshal_delete_friend 0)
    friend ← gets (λ c. is_friend c id)
    when (not friend) (reject delete_is_not_friend 0)
    began ← ask e.ok tx_begin
    when (not began) (do call tx_close; stop tt)
    code ← scoped (delete_in_tx id)
    when (not (code == 0)) (call tx_rollback)
    call tx_close

  -- `errCode` and the result. The first failure leaves `errCode` at 0.
  confirm_in_tx : ℕ → M (ℕ × Bool) (ℕ × Bool)
  confirm_in_tx id = do
    modify (be_not_friend id)
    buf ← gets (λ c. bytes (e.marshal (bare_items c.contacts)))
    me ← gets (λ c. c.account_id)
    updated ← ask e.ok (update_contact_list buf me)
    when (not updated) (do modify (be_friend id); stop (0, false))
    confirmed ← ask e.ok (confirm_friend_delete id me)
    when (not confirmed) (do modify (be_friend id); stop (2, false))
    committed ← ask e.ok tx_commit
    when (not committed) (do modify (be_friend id); stop (3, false))
    modify (λ c. record c { contact_list = buf })
    pure (0, true)

  unfoldable pub delete_friend : {R : Type 0} → ℕ → M R Bool
  unfolding confirm_in_tx
  delete_friend id = scoped do
    friend ← gets (λ c. is_friend c id)
    when (not friend) (do call (send (error_code confirm_is_not_friend 0)); stop false)
    began ← ask e.ok tx_begin
    when (not began) do call (send (error_code confirm_internal 0)); call tx_close; stop false
    r ← scoped (confirm_in_tx id)
    when (not (r.0 == 0)) (do call (send (error_code confirm_internal 0)); call tx_rollback)
    call tx_close
    pure r.1

  pub c2s_confirm_delete_friend : (parsed : Bool) → ℕ → Session → Session
  unfolding delete_friend
  c2s_confirm_delete_friend parsed id = run do
    when (not parsed) (reject unmarshal_confirm_delete_friend 0)
    friend ← gets (λ c. is_friend c id)
    when (not friend) (reject confirm_is_not_friend 0)
    me ← gets (λ c. c.account_id)
    call (set_remove friend_set me id)
    deleted ← delete_friend id
    when deleted do
      call (send (confirm_delete_friend id))
      call (publish (confirm_delete_friend_event (confirm_delete_friend id)))

-- ===== src/Client/Deletion/Outcome.antt =====
-- What deleting a friend (friends.go) leaves in memory and in the saved contact list.
use instant_message.Prelude.{
  ℕ, ◌≡◌, refl, Bool, true, false, List, [], ◌∷◌, arith, ◌==◌, if◌then◌else◌, ◌&&◌, ◌||◌, Option,
  none,
}
use instant_message.Prelude.GoMap.{
  lookup, has_key-insert, has_key-remove, lookup-insert, lookup-remove,
}
use instant_message.Client.{
  Client, Contact, is_friend, be_friend, be_not_friend, get_friend_remark_name,
}
use instant_message.Client.Session.{Call, Env, start, tx_begin, tx_commit}
use instant_message.Client.Saving.{bytes}
use instant_message.Client.Deletion.{c2s_delete_friend, c2s_confirm_delete_friend, bare_items}

module _ (id k : ℕ) (c : Client) where
  pub is_friend-be_friend : is_friend (be_friend id c) k ≡ (if id == k then true else is_friend c k)
  unfolding is_friend be_friend
  is_friend-be_friend = has_key-insert id k _ c.contacts

  pub is_friend-be_not_friend :
      is_friend (be_not_friend id c) k ≡ (if id == k then false else is_friend c k)
  unfolding is_friend be_not_friend
  is_friend-be_not_friend = has_key-remove id k c.contacts

  pub remark-be_friend :
      get_friend_remark_name k (be_friend id c)
      ≡ (if id == k then "" else get_friend_remark_name k c)
  unfolding get_friend_remark_name be_friend
  remark-be_friend =
      ground (arith, lookup-insert id k (record { account_id = id; remark_name = "" }) c.contacts)

  pub remark-be_not_friend :
      get_friend_remark_name k (be_not_friend id c)
      ≡ (if id == k then "" else get_friend_remark_name k c)
  unfolding get_friend_remark_name be_not_friend
  remark-be_not_friend = ground (arith, lookup-remove id k c.contacts)

  -- What memory holds of a contact other than `id`.
  abbrev pub other_contact : Client → Option Contact
  other_contact t = if id == k then none else lookup k t.contacts

  other_contact-be_friend : other_contact (be_friend id c) ≡ other_contact c
  unfolding be_friend
  other_contact-be_friend =
      ground (arith, lookup-insert id k (record { account_id = id; remark_name = "" }) c.contacts)

  other_contact-be_not_friend : other_contact (be_not_friend id c) ≡ other_contact c
  unfolding be_not_friend
  other_contact-be_not_friend = ground (arith, lookup-remove id k c.contacts)

  is_friend-saved : (b : List ℕ) → is_friend (record c { contact_list = b }) k ≡ is_friend c k
  unfolding is_friend
  is_friend-saved b = refl

  remark-saved :
      (b : List ℕ)
      → get_friend_remark_name k (record c { contact_list = b }) ≡ get_friend_remark_name k c
  unfolding get_friend_remark_name
  remark-saved b = refl

-- Whether a transaction was begun, and whether one was committed, without an error.
abbrev pub began : Env → List Call → Bool
began e [] = false
began e (tx_begin ∷ cs) = e.ok cs tx_begin || began e cs
began e (c ∷ cs) = began e cs

abbrev pub committed : Env → List Call → Bool
committed e [] = false
committed e (tx_commit ∷ cs) = e.ok cs tx_commit || committed e cs
committed e (c ∷ cs) = committed e cs

module _ (e : Env) (parsed : Bool) (id k : ℕ) (c : Client) where
  -- Deleting a friend drops that friend from memory exactly when the transaction is committed, and
  -- leaves every other contact as it was.
  pub delete_friend_all_or_nothing :
      let s = c2s_delete_friend e parsed id (start c) in
      (is_friend s.client k ≡ (if committed e s.trace && id == k then false else is_friend c k))
      × (other_contact id k s.client ≡ other_contact id k c)
  unfolding c2s_delete_friend
  delete_friend_all_or_nothing = ground (
    arith,
    is_friend-be_not_friend id k c,
    is_friend-be_friend id k (be_not_friend id c),
    is_friend-saved id k (be_not_friend id c)
        (bytes (e.marshal (bare_items (be_not_friend id c).contacts))),
    other_contact-be_not_friend id k c,
    other_contact-be_friend id k (be_not_friend id c),
  )

  -- Confirming that the other side deleted the user drops that friend from memory exactly when the
  -- transaction is committed, and leaves every other contact as it was.
  pub confirm_delete_friend_all_or_nothing :
      let s = c2s_confirm_delete_friend e parsed id (start c) in
      (is_friend s.client k ≡ (if committed e s.trace && id == k then false else is_friend c k))
      × (other_contact id k s.client ≡ other_contact id k c)
  unfolding c2s_confirm_delete_friend
  confirm_delete_friend_all_or_nothing = ground (
    arith,
    is_friend-be_not_friend id k c,
    is_friend-be_friend id k (be_not_friend id c),
    is_friend-saved id k (be_not_friend id c)
        (bytes (e.marshal (bare_items (be_not_friend id c).contacts))),
    other_contact-be_not_friend id k c,
    other_contact-be_friend id k (be_not_friend id c),
  )

  -- A deletion whose transaction was begun erases the remark name of that friend, also where it fails
  -- and the friend stays; every other remark name in memory stays.
  pub delete_friend_remark :
      let s = c2s_delete_friend e parsed id (start c) in
      get_friend_remark_name k s.client
      ≡ (if began e s.trace && id == k then "" else get_friend_remark_name k c)
  unfolding c2s_delete_friend
  delete_friend_remark = ground (
    arith,
    remark-be_not_friend id k c,
    remark-be_friend id k (be_not_friend id c),
    remark-saved id k (be_not_friend id c)
        (bytes (e.marshal (bare_items (be_not_friend id c).contacts))),
  )

  -- After a committed deletion the saved contact list is the list in memory with every remark name left
  -- out (or empty, where it cannot be serialized); otherwise the saved list is as it was.
  pub delete_friend_contact_list :
      let s = c2s_delete_friend e parsed id (start c) in
      s.client.contact_list ≡ (
        if committed e s.trace
        then bytes (e.marshal (bare_items s.client.contacts))
        else c.contact_list)
  unfolding c2s_delete_friend be_not_friend be_friend
  delete_friend_contact_list = ground arith

-- ===== src/Client/Keyed.antt =====
-- The invariant of the maps of a client (client.go): each contact is stored under its own account id.
use instant_message.Prelude.{ℕ, String, ◌≡◌, refl, [], ◌∷◌, Option, none, some, arith}
use instant_message.Prelude.GoMap.{GoMap, lookup, insert, remove}
use instant_message.Client.{
  Client, Contact, be_friend, be_not_friend, be_black_list, be_not_black_list,
  set_friend_remark_name, renamed,
}

abbrev pub IsKeyed : GoMap Contact → Type 0
IsKeyed [] = Unit
IsKeyed ((k, v) ∷ m) = (v.account_id ≡ k) × IsKeyed m

pub record IsValid (c : Client) : Type 0 where
  pub contacts_keyed : IsKeyed c.contacts
  pub black_list_keyed : IsKeyed c.black_list

pub insert-IsKeyed :
    (k : ℕ) (v : Contact) (m : GoMap Contact)
    → v.account_id ≡ k
    → IsKeyed m
    → IsKeyed (insert k v m)
unfolding insert
insert-IsKeyed k v [] e h = (e, tt)
insert-IsKeyed k v ((j, w) ∷ m) e h = ground (arith, insert-IsKeyed k v m e h.1)

pub remove-IsKeyed : (k : ℕ) (m : GoMap Contact) → IsKeyed m → IsKeyed (remove k m)
unfolding remove
remove-IsKeyed k [] h = tt
remove-IsKeyed k ((j, w) ∷ m) h = ground (arith, remove-IsKeyed k m h.1)

lookup-IsKeyed :
    (k : ℕ) (m : GoMap Contact) (v : Contact) → IsKeyed m → lookup k m ≡ some v → v.account_id ≡ k
unfolding lookup
lookup-IsKeyed k [] v h e = cc
lookup-IsKeyed k ((j, w) ∷ m) v h e = ground (arith, lookup-IsKeyed k m v h.1)

renamed-IsKeyed :
    (id : ℕ) (name : String) (m : GoMap Contact) (o : Option Contact)
    → ((v : Contact) → o ≡ some v → v.account_id ≡ id)
    → IsKeyed m
    → IsKeyed (renamed o id name m)
renamed-IsKeyed id name m none e h = h
renamed-IsKeyed id name m (some v) e h = insert-IsKeyed id _ m (e v refl) h

module _ (id : ℕ) (c : Client) (h : IsValid c) where
  pub be_friend-IsValid : IsValid (be_friend id c)
  unfolding be_friend
  be_friend-IsValid = record {
    contacts_keyed = insert-IsKeyed id _ c.contacts refl h.contacts_keyed;
    black_list_keyed = h.black_list_keyed;
  }

  pub be_not_friend-IsValid : IsValid (be_not_friend id c)
  unfolding be_not_friend
  be_not_friend-IsValid = record {
    contacts_keyed = remove-IsKeyed id c.contacts h.contacts_keyed;
    black_list_keyed = h.black_list_keyed;
  }

  pub be_black_list-IsValid : IsValid (be_black_list id c)
  unfolding be_black_list
  be_black_list-IsValid = record {
    contacts_keyed = h.contacts_keyed;
    black_list_keyed = insert-IsKeyed id _ c.black_list refl h.black_list_keyed;
  }

  pub be_not_black_list-IsValid : IsValid (be_not_black_list id c)
  unfolding be_not_black_list
  be_not_black_list-IsValid = record {
    contacts_keyed = h.contacts_keyed;
    black_list_keyed = remove-IsKeyed id c.black_list h.black_list_keyed;
  }

  pub set_friend_remark_name-IsValid : (name : String) → IsValid (set_friend_remark_name id name c)
  unfolding set_friend_remark_name
  set_friend_remark_name-IsValid name = record {
    contacts_keyed =
        renamed-IsKeyed id name c.contacts (lookup id c.contacts)
          (λ v. lookup-IsKeyed id c.contacts v h.contacts_keyed) h.contacts_keyed;
    black_list_keyed = h.black_list_keyed;
  }

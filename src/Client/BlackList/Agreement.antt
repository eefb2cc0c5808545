-- ===== src/Client/BlackList/Agreement.antt =====
-- The black list in memory against the redis set of the same user (friends.go): what the handlers
-- that add a friend and take one out leave behind on every path, failures included.
use instant_message.Prelude.{
  ℕ, ◌≡◌, ◌⊎◌, refl, Bool, true, false, List, [], ◌∷◌, arith, ◌==◌, if◌then◌else◌, ◌&&◌,
}
use instant_message.Prelude.GoMap.{has_key-insert, has_key-remove}
use instant_message.Client.{Client, is_friend, is_black_list, be_black_list, be_not_black_list}
use instant_message.Client.Session.{
  Call, Env, publish, set_add, set_remove, black_list_set, add_black_list_event,
  move_out_black_list_event, start, update_black_list,
}
use instant_message.Client.Redis.{in_set}
use instant_message.Client.Saving.{get_black_list_bin, bytes, update_black_list_info_in_memory}
use instant_message.Client.BlackList.{c2s_add_friend_black_list, c2s_move_out_friend_black_list}

-- Whether the last call published the change to the user's other terminal.
abbrev pub added_event : List Call → Bool
added_event (publish (add_black_list_event r) ∷ cs) = true
added_event _ = false

abbrev pub moved_out_event : List Call → Bool
moved_out_event (publish (move_out_black_list_event r) ∷ cs) = true
moved_out_event _ = false

module _ (id k : ℕ) (c : Client) where
  pub is_black_list-be_black_list :
      is_black_list (be_black_list id c) k ≡ (if id == k then true else is_black_list c k)
  unfolding is_black_list be_black_list
  is_black_list-be_black_list = has_key-insert id k _ c.black_list

  pub is_black_list-be_not_black_list :
      is_black_list (be_not_black_list id c) k ≡ (if id == k then false else is_black_list c k)
  unfolding is_black_list be_not_black_list
  is_black_list-be_not_black_list = has_key-remove id k c.black_list

module _ (id : ℕ) (c : Client) where
  account_id-be_black_list : (be_black_list id c).account_id ≡ c.account_id
  unfolding be_black_list
  account_id-be_black_list = refl

  account_id-be_not_black_list : (be_not_black_list id c).account_id ≡ c.account_id
  unfolding be_not_black_list
  account_id-be_not_black_list = refl

pub is_black_list-update :
    (e : Env) (c : Client) (k : ℕ)
    → is_black_list (update_black_list_info_in_memory e c) k ≡ is_black_list c k
unfolding update_black_list_info_in_memory is_black_list
is_black_list-update e c k = ground arith

module _ (e : Env) (parsed : Bool) (id k : ℕ) (c : Client) where
  -- Adding a friend changes no other entry of the black list, and lists the friend exactly when the
  -- change is announced: every failure on the way leaves the list as it was. Only a friend who was not
  -- listed is announced.
  pub add_black_list_all_or_nothing :
      let s = c2s_add_friend_black_list e parsed id (start c) in
      (is_black_list s.client k
        ≡ (if added_event s.trace && id == k then true else is_black_list c k))
      × ((added_event s.trace ≡ false) ⊎ (is_friend c id ≡ true) × (is_black_list c id ≡ false))
  unfolding c2s_add_friend_black_list
  add_black_list_all_or_nothing = ground (
    arith,
    is_black_list-be_black_list id k c,
    is_black_list-be_not_black_list id k (be_black_list id c),
    is_black_list-update e (be_black_list id c) k,
  )

  -- The same of taking a friend out: the entry goes exactly when that is announced.
  pub move_out_black_list_all_or_nothing :
      let s = c2s_move_out_friend_black_list e parsed id (start c) in
      (is_black_list s.client k
        ≡ (if moved_out_event s.trace && id == k then false else is_black_list c k))
      × ((moved_out_event s.trace ≡ false) ⊎ (is_friend c id ≡ true) × (is_black_list c id ≡ true))
  unfolding c2s_move_out_friend_black_list
  move_out_black_list_all_or_nothing = ground (
    arith,
    is_black_list-be_not_black_list id k c,
    is_black_list-be_black_list id k (be_not_black_list id c),
    is_black_list-update e (be_not_black_list id c) k,
  )

  -- If the removal that undoes a failed addition never fails itself, the list in memory and the redis
  -- set still agree after an addition, on every key and whatever else failed.
  pub add_black_list_agrees :
      ((t : List Call) → e.ok t (set_remove black_list_set c.account_id id) ≡ true)
      → let s = c2s_add_friend_black_list e parsed id (start c) in
        in_set e black_list_set (is_black_list c k) c.account_id k s.trace
        ≡ is_black_list s.client k
  unfolding c2s_add_friend_black_list
  add_black_list_agrees h = ground (
    arith,
    h (set_add black_list_set c.account_id id ∷ []),
    h (
        update_black_list (bytes (get_black_list_bin e (be_black_list id c))) c.account_id
        ∷ set_add black_list_set c.account_id id
        ∷ []),
    is_black_list-be_black_list id k c,
    is_black_list-be_not_black_list id k (be_black_list id c),
    is_black_list-update e (be_black_list id c) k,
    account_id-be_black_list id c,
    account_id-be_not_black_list id (be_black_list id c),
  )

  -- If the addition that undoes a failed removal never fails itself, memory and redis agree after a
  -- removal too.
  pub move_out_black_list_agrees :
      ((t : List Call) → e.ok t (set_add black_list_set c.account_id id) ≡ true)
      → let s = c2s_move_out_friend_black_list e parsed id (start c) in
        in_set e black_list_set (is_black_list c k) c.account_id k s.trace
        ≡ is_black_list s.client k
  unfolding c2s_move_out_friend_black_list
  move_out_black_list_agrees h = ground (
    arith,
    h (set_remove black_list_set c.account_id id ∷ []),
    h (
        update_black_list (bytes (get_black_list_bin e (be_not_black_list id c))) c.account_id
        ∷ set_remove black_list_set c.account_id id
        ∷ []),
    is_black_list-be_not_black_list id k c,
    is_black_list-be_black_list id k (be_not_black_list id c),
    is_black_list-update e (be_not_black_list id c) k,
    account_id-be_not_black_list id c,
    account_id-be_black_list id (be_not_black_list id c),
  )

-- ===== src/Client/Saving.antt =====
-- The writes of a client's lists to its account record, to mysql and to redis:
-- msg-server/client/client.go, mysqlOpt.go, redisOpt.go and the helpers at the end of friends.go.
use instant_message.Prelude.{ℕ, Bool, Option, none, some, List, [], ◌∷◌, map}
use instant_message.Prelude.GoMap.{GoMap}
use instant_message.Client.{Client, Contact, Bytes, get_black_list_ids, get_friend_remark_name}
use instant_message.Client.Session.{
  Call, Env, M, next, ◌>>=◌, ◌>>◌, gets, modify, call, ask, set_add, set_remove,
  update_contact_list, update_black_list, friend_set, black_list_set,
}

-- The bytes that `ProtoMarshal` returns: nil on failure.
abbrev pub bytes : Option Bytes → Bytes
bytes none = []
bytes (some b) = b

-- The contacts as the loop of `UpdateContactInfoInMemory` builds them: with their remark names.
abbrev pub contact_items : GoMap Contact → List Contact
contact_items [] = []
contact_items ((k, v) ∷ m) =
    record { account_id = k; remark_name = v.remark_name } ∷ contact_items m

-- The values of the black list.
abbrev pub values : GoMap Contact → List Contact
values [] = []
values ((k, v) ∷ m) = v ∷ values m

abbrev pub store_contact_list : Option Bytes → Client → Client
store_contact_list none c = c
store_contact_list (some b) c = record c { contact_list = b }

abbrev pub store_black_list : Option Bytes → Client → Client
store_black_list none c = c
store_black_list (some b) c = record c { black_list_bin = b }

module _ (e : Env) where
  unfoldable pub update_contact_info_in_memory : Client → Client
  update_contact_info_in_memory c = store_contact_list (e.marshal (contact_items c.contacts)) c

  unfoldable pub update_black_list_info_in_memory : Client → Client
  update_black_list_info_in_memory c = store_black_list (e.marshal (values c.black_list)) c

  -- An error of the statement is only logged.
  unfoldable pub save_contact_info : {R : Type 0} → M R (Unit {0})
  unfolding update_contact_info_in_memory
  save_contact_info = do
    modify update_contact_info_in_memory
    list ← gets (λ c. c.contact_list)
    id ← gets (λ c. c.account_id)
    call (update_contact_list list id)

  unfoldable pub save_black_list_info : {R : Type 0} → M R (Unit {0})
  unfolding update_black_list_info_in_memory
  save_black_list_info = do
    modify update_black_list_info_in_memory
    list ← gets (λ c. c.black_list_bin)
    id ← gets (λ c. c.account_id)
    call (update_black_list list id)

-- The loop of `SaveFriendInfoToRedis`: one SADD for each contact, above the calls made before. An
-- error is only logged.
abbrev pub save_friends_of : (owner : ℕ) → GoMap Contact → List Call → List Call
save_friends_of owner [] t = t
save_friends_of owner ((k, v) ∷ m) t =
    save_friends_of owner m (set_add friend_set owner v.account_id ∷ t)

abbrev pub save_friend_info_to_redis : {R : Type 0} → M R (Unit {0})
save_friend_info_to_redis s =
    next tt (record s { trace = save_friends_of s.client.account_id s.client.contacts s.trace })

-- The black list as `getBlackListBin` builds it: with the remark names of the contacts.
unfoldable pub black_list_items : Client → List Contact
unfolding get_black_list_ids get_friend_remark_name
black_list_items c =
    map (λ id. record { account_id = id; remark_name = get_friend_remark_name id c })
      (get_black_list_ids c)

module _ (e : Env) where
  unfoldable pub get_black_list_bin : Client → Option Bytes
  unfolding black_list_items
  get_black_list_bin c = e.marshal (black_list_items c)

  -- Whether each of these returned a nil error.
  unfoldable pub save_black_list_db : {R : Type 0} → Bytes → M R Bool
  save_black_list_db b = do id ← gets (λ c. c.account_id); ask e.ok (update_black_list b id)

  unfoldable pub be_black_list_rds : {R : Type 0} → ℕ → M R Bool
  be_black_list_rds friend = do
    id ← gets (λ c. c.account_id)
    ask e.ok (set_add black_list_set id friend)

  unfoldable pub be_not_black_list_rds : {R : Type 0} → ℕ → M R Bool
  be_not_black_list_rds friend = do
    id ← gets (λ c. c.account_id)
    ask e.ok (set_remove black_list_set id friend)

-- ===== src/Client/Requests/Friendship.antt =====
-- What `C2SAgreeBecomeFriend` (friends.go) establishes: the friendship in memory and in redis.
use instant_message.Prelude.{
  ℕ, ◌≡◌, ◌≢◌, ◌⊎◌, refl, Bool, true, false, ◌&&◌, ◌||◌, List, [], ◌∷◌, arith, ◌==◌, if◌then◌else◌,
}
use instant_message.Prelude.GoMap.{GoMap, has_key, has_key-insert, lookup}
use instant_message.Client.{Client, Contact, is_friend, be_friend}
use instant_message.Client.Keyed.{IsKeyed, IsValid, be_friend-IsValid}
use instant_message.Client.Session.{
  Call, Env, start, found, insert_friend_verification, select_friend_req, update_contact_list,
  set_add, friend_set,
}
use instant_message.Client.Saving.{
  save_friends_of, save_contact_info, update_contact_info_in_memory,
}
use instant_message.Client.Redis.{in_set}
use instant_message.Client.Deletion.Outcome.{is_friend-be_friend}
use instant_message.Client.Requests.{FriendMsg, c2s_agree_become_friend}

-- Whether the acceptance was recorded in mysql.
abbrev pub verified : Env → List Call → Bool
verified e [] = false
verified e (insert_friend_verification f a ∷ cs) =
    e.ok cs (insert_friend_verification f a) || verified e cs
verified e (c ∷ cs) = verified e cs

module _ (e : Env) (owner : ℕ) where
  verified-save_friends_of :
      (m : GoMap Contact) (t : List Call) → verified e (save_friends_of owner m t) ≡ verified e t
  verified-save_friends_of [] t = refl
  verified-save_friends_of ((k, v) ∷ m) t =
      verified-save_friends_of m (set_add friend_set owner v.account_id ∷ t)

  in_set-save_friends_of :
      ((t : List Call) (c : Call) → e.ok t c ≡ true)
      → (b : Bool) (k : ℕ) (m : GoMap Contact) (t : List Call) → IsKeyed m
      → in_set e friend_set b owner k (save_friends_of owner m t)
        ≡ (has_key k m || in_set e friend_set b owner k t)
  unfolding lookup
  in_set-save_friends_of ok b k [] t h = refl
  in_set-save_friends_of ok b k ((j, v) ∷ m) t h = ground (
    arith,
    ok t (set_add friend_set owner v.account_id),
    in_set-save_friends_of ok b k m (set_add friend_set owner v.account_id ∷ t) h.1,
  )

module _ (e : Env) (c : Client) where
  pub is_friend-update : (k : ℕ) → is_friend (update_contact_info_in_memory e c) k ≡ is_friend c k
  unfolding update_contact_info_in_memory is_friend
  is_friend-update k = ground arith

  contacts-update : (update_contact_info_in_memory e c).contacts ≡ c.contacts
  unfolding update_contact_info_in_memory
  contacts-update = ground arith

  account_id-update : (update_contact_info_in_memory e c).account_id ≡ c.account_id
  unfolding update_contact_info_in_memory
  account_id-update = ground arith

account_id-be_friend : (id : ℕ) (c : Client) → (be_friend id c).account_id ≡ c.account_id
unfolding be_friend
account_id-be_friend id c = refl

module _ (e : Env) (req : FriendMsg) (c : Client) where
  -- The client once the friend is added and the contact list serialized.
  befriended : Client
  befriended = update_contact_info_in_memory e (be_friend req.sender_id c)

  before_save : List Call
  before_save =
      update_contact_list befriended.contact_list befriended.account_id
      ∷ insert_friend_verification req.sender_id c.account_id
      ∷ select_friend_req c.account_id req.sender_id
      ∷ []

  -- Agreeing makes the sender of the request a friend exactly when the acceptance is recorded in mysql,
  -- and keeps every other contact. It is recorded only for a request that mysql holds, and never for
  -- the user's own.
  pub agree_become_friend_befriends :
      (parsed : Bool) (k : ℕ)
      → let s = c2s_agree_become_friend e parsed req (start c) in
        (is_friend s.client k
          ≡ (if verified e s.trace && req.sender_id == k then true else is_friend c k))
        × ((verified e s.trace ≡ false)
            ⊎ (e.row [] (select_friend_req c.account_id req.sender_id) ≡ found)
              × (c.account_id ≢ req.sender_id))
  unfolding c2s_agree_become_friend save_contact_info befriended before_save
  agree_become_friend_befriends parsed k = ground (
    arith,
    is_friend-be_friend req.sender_id k c,
    is_friend-update e (be_friend req.sender_id c) k,
    account_id-update e (be_friend req.sender_id c),
    account_id-be_friend req.sender_id c,
    verified-save_friends_of e befriended.account_id befriended.contacts before_save,
  )

  has_key-befriended : has_key req.sender_id befriended.contacts ≡ true
  unfolding befriended be_friend
  has_key-befriended = ground (
    arith,
    contacts-update e (be_friend req.sender_id c),
    has_key-insert req.sender_id req.sender_id
        (record { account_id = req.sender_id; remark_name = "" }) c.contacts,
  )

  befriended-IsValid : IsValid c → IsKeyed befriended.contacts
  unfolding befriended
  befriended-IsValid h =
      rw (contacts-update e (be_friend req.sender_id c))
        (be_friend-IsValid req.sender_id c h).contacts_keyed

  -- Where no call fails, agreeing to the pending request of another user who is no friend yet leaves
  -- each of the two in the redis friend set of the other.
  pub agree_become_friend_mutual :
      IsValid c
      → ((t : List Call) (a : Call) → e.ok t a ≡ true)
      → e.row [] (select_friend_req c.account_id req.sender_id) ≡ found
      → c.account_id ≢ req.sender_id
      → is_friend c req.sender_id ≡ false
      → (before : Bool)
      → let s = c2s_agree_become_friend e true req (start c) in
        (in_set e friend_set before c.account_id req.sender_id s.trace ≡ true)
        × (in_set e friend_set before req.sender_id c.account_id s.trace ≡ true)
  unfolding c2s_agree_become_friend save_contact_info befriended before_save
  agree_become_friend_mutual v ok request other stranger before = ground (
    arith,
    ok (select_friend_req c.account_id req.sender_id ∷ [])
        (insert_friend_verification req.sender_id c.account_id),
    ok (save_friends_of befriended.account_id befriended.contacts before_save)
        (set_add friend_set req.sender_id c.account_id),
    account_id-update e (be_friend req.sender_id c),
    account_id-be_friend req.sender_id c,
    has_key-befriended,
    in_set-save_friends_of e befriended.account_id ok before req.sender_id befriended.contacts
        before_save (befriended-IsValid v),
  )

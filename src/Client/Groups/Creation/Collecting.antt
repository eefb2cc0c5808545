-- ===== src/Client/Groups/Creation/Collecting.antt =====
-- What `C2SCreateChatGroup` (chatGroup.go) gathers before it writes anything: the friends whom it enters
-- and their rows, and what follows of a statement on the rest of the handler.
use instant_message.Prelude.{ℕ, ◌≡◌, ◌≢◌, refl, Bool, true, List, [], ◌∷◌, ◌++◌, arith}
use instant_message.Prelude.GoMap.{GoMap, insert, keys}
use instant_message.Client.{Client, is_friend}
use instant_message.Client.GroupMessage.{
  CreateReq, Member, MemberRow, invitee_is_not_friend, unmarshal_create, owner_marshal_failed,
}
use instant_message.Client.Session.{
  Call, Env, Reply, Session, group_error, error_code, send, get_brief_info,
}
use instant_message.Client.Flows.{Yields, Yields-weaken, Yields-bind, Within, Within-final, Keeping}
use instant_message.Client.Groups.Creation.{
  Picked, or_no_name, pick, collect, member_rows, create_picked, c2s_create_chat_group,
}

-- Friends of `c`, and not `c` itself.
abbrev pub Friends : Client → List ℕ → Type 0
Friends c [] = Unit
Friends c (id ∷ ids) = (is_friend c id ≡ true) × (id ≢ c.account_id) × Friends c ids

Friends-insert :
    (c : Client) (id : ℕ) (m : GoMap (Unit {0}))
    → is_friend c id ≡ true
    → id ≢ c.account_id
    → Friends c (keys m)
    → Friends c (keys (insert id tt m))
unfolding insert
Friends-insert c id [] f n h = (f, n, tt)
Friends-insert c id ((j, v) ∷ m) f n h = ground (arith, Friends-insert c id m f n)

-- The owner first, and friends.
abbrev pub Owned : Client → GoMap Member → Type 0
Owned c [] = ⊥
Owned c ((k, m) ∷ rest) = (k ≡ c.account_id) × Friends c (keys rest)

Friends-add :
    (c : Client) (id : ℕ) (m : Member) (rest : GoMap Member)
    → is_friend c id ≡ true
    → id ≢ c.account_id
    → Friends c (keys rest)
    → Friends c (keys (insert id m rest))
unfolding insert
Friends-add c id m [] f n h = (f, n, tt)
Friends-add c id m ((j, v) ∷ rest) f n h = ground (arith, Friends-add c id m rest f n)

Owned-add :
    (c : Client) (id : ℕ) (m : Member) (hashed : GoMap Member)
    → is_friend c id ≡ true
    → id ≢ c.account_id
    → Owned c hashed
    → Owned c (insert id m hashed)
unfolding insert
Owned-add c id m [] f n h = absurd h
Owned-add c id m ((k, v) ∷ rest) f n h = ground (arith, h, Friends-add c id m rest f n)

abbrev pub Gathered : Client → Picked → Type 0
Gathered c p = Friends c (keys p.invitees) × Owned c p.hashed

abbrev Picks : Client → (List Call → Type 0) → Picked → Session → Type 0
Picks c Q p t = Gathered c p × Keeping c Q t

module _ (e : Env) (c : Client) (Q : List Call → Type 0)
    (asks : (t : List Call) (id : ℕ) → Q t → Q (get_brief_info id ∷ t))
    (rejects : (t : List Call) (r : Reply) → Q t → Q (send r ∷ t)) where
  pick-Picks :
      (id : ℕ) (p : Picked) (s : Session)
      → Picks c Q p s
      → Yields (Picks c Q) (λ r. Keeping c Q) (pick e c.account_id id p s)
  unfolding pick
  pick-Picks id p s h =
      let m : Member = record {
        user_id = e.brief_id s.trace (get_brief_info id);
        user_nick_name = or_no_name (e.text s.trace (get_brief_info id));
        flag = 2;
        user_head_portrait_url = "";
      } in
      ground (
        arith,
        Friends-insert c id p.invitees,
        Owned-add c id m p.hashed,
        asks s.trace id,
        rejects s.trace (error_code (group_error invitee_is_not_friend) 0),
      )

  collect-Picks :
      (ids : List ℕ) (p : Picked) (s : Session)
      → Picks c Q p s
      → Yields (Picks c Q) (λ r. Keeping c Q) (collect e c.account_id ids p s)
  unfolding collect
  collect-Picks [] p s h = h
  collect-Picks (id ∷ ids) p s h =
      Yields-bind (λ r. Keeping c Q) (Picks c Q) (Picks c Q) (pick e c.account_id id p)
        (λ q. collect e c.account_id ids q) s (pick-Picks id p s h) (collect-Picks ids)

abbrev FriendRows : Client → List MemberRow → Type 0
FriendRows c [] = Unit
FriendRows c (row ∷ rows) = (is_friend c row.row_account_id ≡ true) × FriendRows c rows

FriendRows-append :
    (c : Client) (rows : List MemberRow) (row : MemberRow)
    → FriendRows c rows
    → is_friend c row.row_account_id ≡ true
    → FriendRows c (rows ++ row ∷ [])
FriendRows-append c [] row h f = (f, tt)
FriendRows-append c (r ∷ rows) row (h, hs) f = (h, FriendRows-append c rows row hs f)

-- The first row is that of the client, and each other that of a friend.
abbrev pub Listed : Client → List MemberRow → Type 0
Listed c [] = ⊥
Listed c (row ∷ rows) = (row.row_account_id ≡ c.account_id) × FriendRows c rows

Listed-append :
    (c : Client) (rows : List MemberRow) (row : MemberRow)
    → Listed c rows
    → is_friend c row.row_account_id ≡ true
    → Listed c (rows ++ row ∷ [])
Listed-append c [] row h f = absurd h
Listed-append c (r ∷ rows) row (h, hs) f = (h, FriendRows-append c rows row hs f)

module _ (e : Env) (c : Client) (Q : List Call → Type 0)
    (asks : (t : List Call) (id : ℕ) → Q t → Q (get_brief_info id ∷ t)) where
  -- It never returns early.
  pub member_rows-Listed :
      (D : Unit {0} → Session → Type 0) (group : ℕ) (ids : List ℕ) (rows : List MemberRow)
      (s : Session)
      → Friends c ids
      → Listed c rows
      → Keeping c Q s
      → Yields (λ out t. Listed c out × Keeping c Q t) D (member_rows e group ids rows s)
  unfolding member_rows
  member_rows-Listed D group [] rows s f l h = (l, h)
  member_rows-Listed D group (id ∷ ids) rows s (f, n, fs) l h =
      member_rows-Listed D group ids _ _ fs (Listed-append c rows _ l f) (h.0, asks s.trace id h.1)

module _ (e : Env) (s : Session) (Q : List Call → Type 0)
    (asks : (t : List Call) (id : ℕ) → Q t → Q (get_brief_info id ∷ t))
    (rejects : (t : List Call) (r : Reply) → Q t → Q (send r ∷ t)) where
  abbrev c : Client
  c = s.client

  owned : Picked
  owned = record {
    invitees = [];
    hashed =
        (
          c.account_id,
          record {
            user_id = c.account_id;
            user_nick_name = c.nick_name;
            flag = 1;
            user_head_portrait_url = "";
          },
        )
        ∷ [];
  }

  -- A statement on the part after the friends are gathered holds of the handler.
  pub create_chat_group-Within :
      (O : List Call → Type 0)
      → ((t : List Call) → Q t → O t)
      → (req : CreateReq)
      → ((p : Picked) (t : Session)
          → Gathered c p
          → Keeping c Q t
          → Within (Keeping c O) (create_picked e c.account_id c.nick_name req p t))
      → (parsed : Bool) → Q s.trace
      → Keeping c O (c2s_create_chat_group e parsed req s)
  unfolding c2s_create_chat_group owned
  create_chat_group-Within O weaken req picked parsed q =
      let rest =
        Yields-bind (λ r. Keeping c O) (Picks c Q) (λ r. Keeping c O)
          (collect e c.account_id req.friend_ids owned)
          (create_picked e c.account_id c.nick_name req) s
          (Yields-weaken (λ p t h. h) (λ r t h. (h.0, weaken t.trace h.1))
            (collect e c.account_id req.friend_ids owned s)
            (collect-Picks e c Q asks rejects req.friend_ids owned s ((tt, (refl, tt)), (refl, q))))
          (λ p t (f, k). picked p t f k) in
      ground (
        arith,
        weaken s.trace q,
        weaken (send (error_code (group_error unmarshal_create) 0) ∷ s.trace) (rejects s.trace _ q),
        weaken (send (error_code (group_error owner_marshal_failed) 0) ∷ s.trace)
            (rejects s.trace _ q),
        Within-final (Keeping c O) _ rest,
      )

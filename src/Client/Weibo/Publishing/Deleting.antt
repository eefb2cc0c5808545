-- ===== src/Client/Weibo/Publishing/Deleting.antt =====
-- Which posts a user can have deleted: `C2SDeleteWeibo` (weibo.go).
use instant_message.Prelude.{
  ℕ, ◌∙◌, ◌≡◌, refl, Bool, true, false, ◌||◌, ◌==◌, not, Option, none, some, List, [], ◌∷◌, arith,
  if◌then◌else◌,
}
use instant_message.Client.{Client}
use instant_message.Client.WeiboMessage.{
  Weibo, WeiboMq, Fetched, missing, garbled, stored, get_weibo, delete_internal, delete_id_error,
  get_readers, delete_weibo_row, mq_delete, delete_reply_list, delete_reply_set, delete_like_hash,
  delete_like_set, remove_weibo_zset, delete_weibo_string, remove_weibo_set, remove_weibo_list,
}
use instant_message.Client.Session.{Call, Session, start, Env, M, when, ◌>>◌, ◌>>=◌, weibo_call}
use instant_message.Client.Groups.{each}
use instant_message.Client.Flows.{Within, Yields-bind, Yields-weaken, Within-final}
use instant_message.Client.Weibo.{queue_to_friend, weibo_reject, readers}
use instant_message.Client.Weibo.Publishing.{
  c2s_delete_weibo, delete_found, delete_told, delete_weibo_db, delete_weibo_rds,
}

-- Whether the row of a post other than `weibo` is deleted, or of any post where there is no `weibo`.
abbrev pub deletes_other : (weibo : Option ℕ) → List Call → Bool
deletes_other weibo [] = false
deletes_other none (weibo_call (delete_weibo_row k) ∷ cs) = true
deletes_other (some id) (weibo_call (delete_weibo_row k) ∷ cs) =
    not (k == id) || deletes_other (some id) cs
deletes_other weibo (c ∷ cs) = deletes_other weibo cs

-- The post that the user may delete: the one found, where the user has published it.
abbrev pub owned : (user : ℕ) → Fetched → Option ℕ
owned user (stored w) = if user == w.publisher_id then some w.weibo_id else none
owned user _ = none

each-deletes_other :
    (own : Option ℕ) (c : Client) (m : WeiboMq) (ids : List ℕ) (t : List Call)
    → deletes_other own (each (queue_to_friend c m) ids t) ≡ deletes_other own t
each-deletes_other own c m [] t = refl
each-deletes_other own c m (id ∷ ids) t =
    ground (arith, each-deletes_other own c m ids (queue_to_friend c m id t))

module _ (e : Env) (own : Option ℕ) where
  delete_told-deletes :
      (me : ℕ) (w : Weibo) (found : Option (List ℕ)) (s : Session)
      → Within
          (λ t. deletes_other own t.trace ≡ deletes_other own s.trace)
          (delete_told e me w found s)
  unfolding delete_told delete_weibo_rds
  delete_told-deletes me w none s = refl
  delete_told-deletes me w (some ids) s = ground (
    arith,
    each-deletes_other own s.client (mq_delete w.publisher_id w.weibo_id) ids (
        weibo_call (delete_reply_list me w.weibo_id)
        ∷ weibo_call (delete_reply_set me w.weibo_id)
        ∷ weibo_call (delete_like_hash me w.weibo_id)
        ∷ weibo_call (delete_like_set me w.weibo_id)
        ∷ weibo_call (remove_weibo_zset me me w.weibo_id)
        ∷ weibo_call (delete_weibo_string me w.weibo_id)
        ∷ weibo_call (remove_weibo_set me w.weibo_id)
        ∷ weibo_call (remove_weibo_list me w.weibo_id)
        ∷ s.trace),
  )

  delete_weibo_db-deletes :
      (w : Weibo) (s : Session)
      → own ≡ some w.weibo_id
      → Within {R = Unit {0}}
          (λ t. deletes_other own t.trace ≡ deletes_other own s.trace)
          (delete_weibo_db e w.weibo_id s)
  unfolding delete_weibo_db
  delete_weibo_db-deletes w s h = ground (arith, h)

module _ (e : Env) (me : ℕ) where
  reading :
      (own : Option ℕ) (id : ℕ) (t : List Call)
      → deletes_other own (weibo_call (get_readers me id) ∷ t) ≡ deletes_other own t
  reading none id t = refl
  reading (some k) id t = refl

  after_delete :
      (own : Option ℕ) (w : Weibo) (s : Session)
      → own ≡ some w.weibo_id
      → deletes_other own s.trace ≡ false
      → Within
          (λ t. deletes_other own t.trace ≡ false)
          ((delete_weibo_db e w.weibo_id >>= λ deleted.
              when (not deleted) (weibo_reject delete_internal)
              >> (readers e w.weibo_id me >>= λ ids. delete_told e me w ids))
            s)
  after_delete own w s h none_yet =
      let P : Session → Type 0 = λ t. deletes_other own t.trace ≡ false in
      Yields-bind (λ r. P) (λ a. P) (λ r. P) (delete_weibo_db e w.weibo_id)
        (λ deleted.
          when (not deleted) (weibo_reject delete_internal)
          >> (readers e w.weibo_id me >>= λ ids. delete_told e me w ids))
        s
        (Yields-weaken (λ a t q. q ∙ none_yet) (λ a t q. q ∙ none_yet)
          (delete_weibo_db e w.weibo_id s) (delete_weibo_db-deletes e own w s h))
        (told w)
    where
      told :
          (w : Weibo) (deleted : Bool) (t : Session)
          → deletes_other own t.trace ≡ false
          → Within
              (λ t. deletes_other own t.trace ≡ false)
              ((when (not deleted) (weibo_reject delete_internal)
                  >> (readers e w.weibo_id me >>= λ ids. delete_told e me w ids))
                t)
      told w false t q = ground (arith, q)
      told w true t q =
          let u = record t { trace = weibo_call (get_readers me w.weibo_id) ∷ t.trace } in
          Yields-weaken (λ a v r. r ∙ (reading own w.weibo_id t.trace ∙ q))
            (λ a v r. r ∙ (reading own w.weibo_id t.trace ∙ q))
            (delete_told e me w (e.set_ids t.trace (weibo_call (get_readers me w.weibo_id))) u)
            (delete_told-deletes e own me w
              (e.set_ids t.trace (weibo_call (get_readers me w.weibo_id))) u)

  refused_or :
      (own : Option ℕ) (mine : Bool) (m : M (Unit {0}) (Unit {0})) (s : Session)
      → deletes_other own s.trace ≡ false
      → (mine ≡ true → Within (λ t. deletes_other own t.trace ≡ false) (m s))
      → Within
          (λ t. deletes_other own t.trace ≡ false)
          ((when (not mine) (weibo_reject delete_id_error) >> m) s)
  refused_or own true m s h f = f refl
  refused_or own false m s h f = ground (arith, h)

  owned-some : (w : Weibo) → me == w.publisher_id ≡ true → owned me (stored w) ≡ some w.weibo_id
  owned-some w h = ground (arith, h)

  delete_found-deletes :
      (found : Fetched) (s : Session)
      → deletes_other (owned me found) s.trace ≡ false
      → Within (λ t. deletes_other (owned me found) t.trace ≡ false) (delete_found e me found s)
  unfolding delete_found
  delete_found-deletes missing s h = h
  delete_found-deletes garbled s h = h
  delete_found-deletes (stored w) s h =
      refused_or (owned me (stored w)) (me == w.publisher_id)
        (delete_weibo_db e w.weibo_id >>= λ deleted.
          when (not deleted) (weibo_reject delete_internal)
          >> (readers e w.weibo_id me >>= λ ids. delete_told e me w ids))
        s h (λ mine. after_delete (owned me (stored w)) w s (owned-some w mine) h)

module _ (e : Env) (c : Client) (id : ℕ) where
  -- The only row of a post that a user has deleted from mysql is that of the post found in redis, and only where
  -- the user has published it.
  pub delete_weibo-OwnOnly :
      deletes_other
        (owned c.account_id (e.weibo [] (weibo_call (get_weibo c.account_id id))))
        (c2s_delete_weibo e true id (start c)).trace
      ≡ false
  unfolding c2s_delete_weibo
  delete_weibo-OwnOnly =
      let found = e.weibo [] (weibo_call (get_weibo c.account_id id)) in
      let s : Session = record {
        client = c;
        trace = weibo_call (get_weibo c.account_id id) ∷ [];
      } in
      Within-final (λ t. deletes_other (owned c.account_id found) t.trace ≡ false)
        (delete_found e c.account_id found s)
        (delete_found-deletes e c.account_id found s (nothing_deleted (owned c.account_id found)))
    where
      nothing_deleted :
          (own : Option ℕ) → deletes_other own (weibo_call (get_weibo c.account_id id) ∷ []) ≡ false
      nothing_deleted none = refl
      nothing_deleted (some k) = refl

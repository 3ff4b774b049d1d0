-- ===== src/Lnurl/Keys.antt =====
-- Whose account a callback leads to, and to how many accounts a key belongs.
use satoidc.Common.{
  ℕ, ◌≡◌, ◌≢◌, ◌≤◌, refl, sym, subst, ap, Bool, true, none, some, List, [], ◌∷◌, Outcome, ok, ◌==◌,
  ◌&&◌, not, Option-cases, Bool-cases, inl, inr, arith,
}
use satoidc.Common.Rows.{first_where, count_where, update_first}
use satoidc.Common.Rows.Counting.{
  count_where-append, count_where-first_none, count_where-update_first_le,
}
use satoidc.Models.{Uuid, Instant, Token, User, LnurlAuthChallenge}
use satoidc.Lnurl.{
  IdentityStore, LnurlAuthCallbackIn, auth, status_ok, Handled, CallbackError, has_pubkey, is_user,
  set_pubkey, new_wallet_user, lnurl_auth_callback, is_usable, action_matches,
}
use satoidc.Lnurl.Answers.{Resolved, known, registered, linked, Answer, callback_lem}
use satoidc.Lnurl.Owned.{Owns, IsKeyed, Owns-found, Owns-linked, append_id, append_key}

module _ (now : Instant) (ttl : ℕ) (db_now : Instant) (fresh_id : Uuid) where
  Resolved-Owns :
      (s : IdentityStore) (q : LnurlAuthCallbackIn) (c : LnurlAuthChallenge) (users : List User)
      (id : Uuid)
      → Resolved now ttl db_now fresh_id s q c users id
      → Owns q.key id users
  Resolved-Owns s q c _ _ (known u e) = Owns-found q.key u s.users e
  Resolved-Owns s q c _ _ (registered e) = rw count_where-append (ground arith)
  Resolved-Owns s q c _ _ (linked id u owner e other) = Owns-linked q.key id u s.users e

  -- No account of the key has another number.
  abbrev KeptBy : Token → Uuid → List User → Type 0
  KeptBy key id users = count_where (λ u. has_pubkey key u && not (u.id == id)) users ≡ 0

  none_kept :
      (key : Token) (id : Uuid) (users : List User)
      → count_where (has_pubkey key) users ≡ 0
      → KeptBy key id users
  none_kept key id [] h = refl
  none_kept key id (x ∷ xs) h = ground (arith, none_kept key id xs)

  found_kept :
      (key : Token) (id : Uuid) (v : User) (users : List User)
      → count_where (has_pubkey key) users ≤ 1
      → first_where (has_pubkey key) users ≡ some v
      → v.id ≡ id
      → KeptBy key id users
  found_kept key id v [] h e k = refl
  found_kept key id v (x ∷ xs) h e k = ground (arith, none_kept key id xs, found_kept key id v xs)

  kept_le :
      (key : Token) (id : Uuid) (users : List User)
      → KeptBy key id users
      → count_where (has_pubkey key) users ≤ count_where (is_user id) users
  kept_le key id [] h = omega arith
  kept_le key id (x ∷ xs) h = ground (arith, kept_le key id xs)

  linked_le :
      (key : Token) (id : Uuid) (users : List User)
      → KeptBy key id users
      → count_where (has_pubkey key) (update_first (is_user id) (set_pubkey key) users)
        ≤ count_where (is_user id) users
  linked_le key id [] h = omega arith
  linked_le key id (x ∷ xs) h = ground (arith, kept_le key id xs, linked_le key id xs)

  linked_kept :
      (key : Token) (id : Uuid) (users : List User)
      → count_where (has_pubkey key) users ≤ 1
      → ((v : User) → first_where (has_pubkey key) users ≡ some v → v.id ≡ id)
      → KeptBy key id users
  linked_kept key id users le_one other = elim (Option-cases (first_where (has_pubkey key) users)) [
    | inl e ↦ none_kept key id users (count_where-first_none (has_pubkey key) users e)
    | inr (v, e) ↦ found_kept key id v users le_one e (other v e)
  ]

  linked_keys :
      (key id k : ℕ) (users : List User)
      → count_where (is_user id) users ≤ 1
      → ((k : Token) → count_where (has_pubkey k) users ≤ 1)
      → ((v : User) → first_where (has_pubkey key) users ≡ some v → v.id ≡ id)
      → count_where (has_pubkey k) (update_first (is_user id) (set_pubkey key) users) ≤ 1
  linked_keys key id k users one keys other = elim (Bool-cases (key == k)) [
    | inl same ↦
        let e : key ≡ k = ground arith in
        subst
          (λ k'. count_where (has_pubkey k') (update_first (is_user id) (set_pubkey key) users) ≤ 1)
          e (omega (arith, linked_le key id users (linked_kept key id users (keys key) other), one))
    | inr differs ↦ omega (
      arith,
      count_where-update_first_le (has_pubkey k) (is_user id) (set_pubkey key) users
          (λ x ex ek. absurd (ground arith)),
      keys k,
    )
  ]

  Resolved-ids :
      (s : IdentityStore) (q : LnurlAuthCallbackIn) (c : LnurlAuthChallenge) (users : List User)
      (id n : Uuid)
      → first_where (is_user fresh_id) s.users ≡ none
      → ((m : Uuid) → count_where (is_user m) s.users ≤ 1)
      → Resolved now ttl db_now fresh_id s q c users id
      → count_where (is_user n) users ≤ 1
  Resolved-ids s q c _ _ n fresh ids (known u e) = ids n
  Resolved-ids s q c _ _ n fresh ids (registered e) =
      append_id n (new_wallet_user fresh_id q.key db_now) s.users fresh (ids n)
  Resolved-ids s q c _ _ n fresh ids (linked id u owner e other) = omega (
    arith,
    count_where-update_first_le (is_user n) (is_user id) (set_pubkey q.key) s.users (λ x ex en. en),
    ids n,
  )

  Resolved-keys :
      (s : IdentityStore) (q : LnurlAuthCallbackIn) (c : LnurlAuthChallenge) (users : List User)
      (id : Uuid) (k : Token)
      → IsKeyed s
      → Resolved now ttl db_now fresh_id s q c users id
      → count_where (has_pubkey k) users ≤ 1
  Resolved-keys s q c _ _ k keyed (known u e) = keyed.keys k
  Resolved-keys s q c _ _ k keyed (registered e) =
      append_key k q.key (new_wallet_user fresh_id q.key db_now) s.users refl e (keyed.keys k)
  Resolved-keys s q c _ _ k keyed (linked id u owner e other) =
      linked_keys q.key id k s.users (keyed.ids id) keyed.keys other

  Answer-IsKeyed :
      (s : IdentityStore) (q : LnurlAuthCallbackIn) (c : LnurlAuthChallenge) (h : Handled)
      → first_where (is_user fresh_id) s.users ≡ none
      → IsKeyed s
      → Answer now ttl db_now fresh_id s q c h
      → IsKeyed h.store
  unfolding Answer
  Answer-IsKeyed s q c h fresh keyed (inr quiet) = subst IsKeyed (sym quiet.0) keyed
  Answer-IsKeyed s q c h fresh keyed (inl done) =
      subst (λ h. IsKeyed h.store) (sym done.answer)
        record {
          ids = λ n. Resolved-ids s q c done.users done.id n fresh keyed.ids done.resolved;
          keys = λ k. Resolved-keys s q c done.users done.id k keyed done.resolved;
        }

  Answer-Owns :
      (s : IdentityStore) (q : LnurlAuthCallbackIn) (c : LnurlAuthChallenge) (h : Handled)
      → h.status ≡ status_ok
      → q.action ≢ some auth
      → Answer now ttl db_now fresh_id s q c h
      → (id : Uuid) × (h.event ≡ some record { k1 = q.k1; user_id = some id })
        × Owns q.key id h.store.users
  unfolding Answer
  Answer-Owns s q c h fine other (inr quiet) = absurd (other (quiet.1 fine))
  Answer-Owns s q c h fine other (inl done) = (
    done.id,
    ap (λ h. h.event) done.answer,
    subst (λ h. Owns q.key done.id h.store.users) (sym done.answer)
        (Resolved-Owns s q c done.users done.id done.resolved),
  )

  module _ (verify : Token → Token → Token → Outcome CallbackError Bool) where
    -- Where the number of the new account is not taken, a callback that answers keeps the number and the
    -- wallet key of every account unique.
    pub callback-IsKeyed :
        (s : IdentityStore) (q : LnurlAuthCallbackIn) (h : Handled)
        → first_where (is_user fresh_id) s.users ≡ none
        → IsKeyed s
        → lnurl_auth_callback now ttl db_now fresh_id verify s q ≡ ok h
        → IsKeyed h.store
    callback-IsKeyed s q h fresh keyed e =
        elim (callback_lem now ttl db_now fresh_id verify s q h e) [
          | inr (same, _, _) ↦ subst IsKeyed (sym same) keyed
          | inl checked ↦ Answer-IsKeyed s q checked.challenge h fresh keyed checked.answered
        ]

    -- A callback that answers "OK" to an action other than `auth` has found an unused, unexpired challenge
    -- of that action, the signature of it by the wallet's key is valid, and it announces the number of an
    -- account that now has that key.
    pub callback-Owns :
        (s : IdentityStore) (q : LnurlAuthCallbackIn) (h : Handled)
        → lnurl_auth_callback now ttl db_now fresh_id verify s q ≡ ok h
        → h.status ≡ status_ok
        → q.action ≢ some auth
        → (id : Uuid) × (h.event ≡ some record { k1 = q.k1; user_id = some id })
          × Owns q.key id h.store.users
          × (verify q.k1 q.key q.sig ≡ ok true)
          × (c : LnurlAuthChallenge) × (first_where (is_usable now ttl q.k1) s.challenges ≡ some c)
          × (action_matches c.action q.action ≡ true)
    callback-Owns s q h e fine other = elim (callback_lem now ttl db_now fresh_id verify s q h e) [
      | inr (_, refused, _) ↦ absurd (refused fine)
      | inl checked ↦
          let (id, event, owns) = Answer-Owns s q checked.challenge h fine other checked.answered in
          (id, event, owns, checked.signed, checked.challenge, checked.usable, checked.same_action)
    ]

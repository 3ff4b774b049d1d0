-- ===== src/Lnurl/Once.antt =====
-- Challenges that have been used, and what is not committed.
use satoidc.Common.{
  ℕ, ◌≡◌, ◌≢◌, ◌≤◌, refl, sym, subst, ap, Bool, none, some, List, [], ◌∷◌, Outcome, ok, inl, inr,
  arith,
}
use satoidc.Common.Rows.{first_where, update_first}
use satoidc.Models.{Uuid, Instant, Token, LnurlAuthChallenge}
use satoidc.Lnurl.{
  IdentityStore, LnurlAuthCallbackIn, auth, status_ok, Handled, CallbackError, has_k1, set_user,
  is_usable, lnurl_auth_callback, reject, invalid_or_expired_k1, consumed_challenges,
}
use satoidc.Lnurl.Answers.{IsCommit, Answer, callback_lem}

module _ (now ttl : ℕ) where
  consumed_unusable :
      (later k1 : ℕ) (cs : List LnurlAuthChallenge)
      → now ≤ later
      → first_where (is_usable later ttl k1) (consumed_challenges now ttl k1 cs) ≡ none
  consumed_unusable later k1 [] h = refl
  consumed_unusable later k1 (c ∷ cs) h = ground (arith, consumed_unusable later k1 cs)

  set_user_unusable :
      (k1 id : ℕ) (cs : List LnurlAuthChallenge)
      → first_where (is_usable now ttl k1) cs ≡ none
      → first_where (is_usable now ttl k1) (update_first (has_k1 k1) (set_user id) cs) ≡ none
  set_user_unusable k1 id [] h = refl
  set_user_unusable k1 id (c ∷ cs) h = ground (arith, set_user_unusable k1 id cs)

module _ (now later ttl : ℕ) (db_now : Instant) (fresh_id : Uuid)
    (verify : Token → Token → Token → Outcome CallbackError Bool) where
  refused_later :
      (s : IdentityStore) (q q' : LnurlAuthCallbackIn)
      → q'.k1 ≡ q.k1
      → first_where (is_usable later ttl q.k1) s.challenges ≡ none
      → lnurl_auth_callback later ttl db_now fresh_id verify s q'
        ≡ ok (reject invalid_or_expired_k1 s)
  unfolding lnurl_auth_callback
  refused_later s q q' same none_left = rw (same, none_left) refl

  committed_once :
      (s : IdentityStore) (q q' : LnurlAuthCallbackIn) (c : LnurlAuthChallenge) (h : Handled)
      → now ≤ later
      → q'.k1 ≡ q.k1
      → IsCommit now ttl db_now fresh_id s q c h
      → lnurl_auth_callback later ttl db_now fresh_id verify h.store q'
        ≡ ok (reject invalid_or_expired_k1 h.store)
  committed_once s q q' c h le same done = refused_later h.store q q' same (
      subst (λ h. first_where (is_usable later ttl q.k1) h.store.challenges ≡ none)
        (sym done.answer)
        (set_user_unusable later ttl q.k1 done.id (consumed_challenges now ttl q.k1 s.challenges)
          (consumed_unusable now ttl later q.k1 s.challenges le)))

  answered_once :
      (s : IdentityStore) (q q' : LnurlAuthCallbackIn) (c : LnurlAuthChallenge) (h : Handled)
      → now ≤ later
      → q'.k1 ≡ q.k1
      → h.status ≡ status_ok
      → q.action ≢ some auth
      → Answer now ttl db_now fresh_id s q c h
      → lnurl_auth_callback later ttl db_now fresh_id verify h.store q'
        ≡ ok (reject invalid_or_expired_k1 h.store)
  unfolding Answer
  answered_once s q q' c h le same fine other (inl done) = committed_once s q q' c h le same done
  answered_once s q q' c h le same fine other (inr quiet) = absurd (other (quiet.1 fine))

  -- After a callback that answered "OK" to an action other than `auth`, every later callback with the same
  -- challenge, whatever its key, signature and action, is refused as invalid or expired.
  pub callback_once :
      (s : IdentityStore) (q q' : LnurlAuthCallbackIn) (h : Handled)
      → now ≤ later
      → lnurl_auth_callback now ttl db_now fresh_id verify s q ≡ ok h
      → h.status ≡ status_ok
      → q.action ≢ some auth
      → q'.k1 ≡ q.k1
      → lnurl_auth_callback later ttl db_now fresh_id verify h.store q'
        ≡ ok (reject invalid_or_expired_k1 h.store)
  callback_once s q q' h le e fine other same =
      elim (callback_lem now ttl db_now fresh_id verify s q h e) [
        | inr (_, refused, _) ↦ absurd (refused fine)
        | inl checked ↦ answered_once s q q' checked.challenge h le same fine other checked.answered
      ]

  answered_error :
      (s : IdentityStore) (q : LnurlAuthCallbackIn) (c : LnurlAuthChallenge) (h : Handled)
      → h.status ≢ status_ok
      → Answer now ttl db_now fresh_id s q c h
      → h.store ≡ s
  unfolding Answer
  answered_error s q c h bad (inr quiet) = quiet.0
  answered_error s q c h bad (inl done) = absurd (bad (ap (λ h. h.status) done.answer))

  -- A callback that answers with an error changes nothing: the challenge that it marked as consumed is
  -- unconsumed again, even where the signature was invalid.
  pub callback_error :
      (s : IdentityStore) (q : LnurlAuthCallbackIn) (h : Handled)
      → lnurl_auth_callback now ttl db_now fresh_id verify s q ≡ ok h
      → h.status ≢ status_ok
      → h.store ≡ s
  callback_error s q h e bad = elim (callback_lem now ttl db_now fresh_id verify s q h e) [
    | inr (same, _, _) ↦ same
    | inl checked ↦ answered_error s q checked.challenge h bad checked.answered
  ]

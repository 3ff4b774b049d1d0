-- ===== src/Lnurl/Answers.antt =====
-- What a callback has checked and changed when it answers.
use satoidc.Common.{
  ℕ, ◌≡◌, ◌≢◌, refl, sym, subst, Bool, true, false, Option, none, some, List, [], ◌∷◌, ◌++◌,
  Outcome, ok, raised, if◌then◌else◌, Option-cases, Bool-cases, inl, inr, ◌⊎◌, arith,
}
use satoidc.Common.Rows.{first_where, update_first}
use satoidc.Models.{Uuid, Instant, Token, User, LnurlAuthChallenge}
use satoidc.Lnurl.{
  IdentityStore, LnurlAction, register, login, link, auth, LnurlAuthCallbackIn, status_ok, Handled,
  CallbackError, has_pubkey, is_user, action_matches, new_wallet_user, set_pubkey, is_usable,
  committed, lnurl_auth_callback, by_action, owned_by_another, link_user, after_verify, link_found,
  reject, wallet_already_linked,
}

module _ (now : Instant) (ttl : ℕ) (db_now : Instant) (fresh_id : Uuid) where
  -- The accounts and the account of the challenge after a commit.
  pub data Resolved (s : IdentityStore) (q : LnurlAuthCallbackIn) (c : LnurlAuthChallenge)
      : List User → Uuid → Type 0 where
    known :
        (u : User) → first_where (has_pubkey q.key) s.users ≡ some u → Resolved s q c s.users u.id
    registered :
        first_where (has_pubkey q.key) s.users ≡ none
        → Resolved s q c (s.users ++ new_wallet_user fresh_id q.key db_now ∷ []) fresh_id
    linked :
        (id : Uuid) (u : User)
        → c.user_id ≡ some id
        → first_where (is_user id) s.users ≡ some u
        → ((v : User) → first_where (has_pubkey q.key) s.users ≡ some v → v.id ≡ id)
        → Resolved s q c (update_first (is_user id) (set_pubkey q.key) s.users) id

  -- A committed answer.
  pub record IsCommit (s : IdentityStore) (q : LnurlAuthCallbackIn) (c : LnurlAuthChallenge)
      (h : Handled) : Type 0 where
    pub users : List User
    pub id : Uuid
    pub resolved : Resolved s q c users id
    pub answer : h ≡ committed now ttl s users q.k1 id

  abbrev pub IsQuiet : IdentityStore → LnurlAuthCallbackIn → Handled → Type 0
  IsQuiet s q h = (h.store ≡ s) × (h.status ≡ status_ok → q.action ≡ some auth)

  unfoldable pub Answer :
      IdentityStore → LnurlAuthCallbackIn → LnurlAuthChallenge → Handled → Type 0
  Answer s q c h = IsCommit s q c h ⊎ IsQuiet s q h

  not_another :
      (id : Uuid) (o : Option User)
      → owned_by_another now ttl db_now fresh_id id o ≡ false
      → (v : User) → o ≡ some v
      → v.id ≡ id
  not_another id none h v e = cc
  not_another id (some u) h v e = ground arith

  link_tests :
      (s : IdentityStore) (q : LnurlAuthCallbackIn) (c : LnurlAuthChallenge) (id : Uuid) (b : Bool)
      (o : Option User)
      → c.user_id ≡ some id
      → owned_by_another now ttl db_now fresh_id id (first_where (has_pubkey q.key) s.users) ≡ b
      → first_where (is_user id) s.users ≡ o
      → Answer s q c (
          if b then reject wallet_already_linked s else link_found now ttl db_now fresh_id s q id o)
  unfolding Answer
  link_tests s q c id true o e eb eo = inr (refl, λ k. cc)
  link_tests s q c id false none e eb eo = inr (refl, λ k. cc)
  link_tests s q c id false (some u) e eb eo =
      inl record {
        users = _;
        id = _;
        resolved = linked id u e eo (not_another id _ eb);
        answer = refl;
      }

  link_Answer :
      (s : IdentityStore) (q : LnurlAuthCallbackIn) (c : LnurlAuthChallenge) (owner : Option Uuid)
      → c.user_id ≡ owner
      → Answer s q c
          (link_user now ttl db_now fresh_id s q owner (first_where (has_pubkey q.key) s.users))
  unfolding Answer
  link_Answer s q c none e = inr (refl, λ k. cc)
  link_Answer s q c (some id) e = link_tests s q c id _ _ e refl refl

  by_action_lem :
      (a : Option LnurlAction) (s : IdentityStore) (q : LnurlAuthCallbackIn)
      (c : LnurlAuthChallenge) (o : Option User)
      → q.action ≡ a
      → first_where (has_pubkey q.key) s.users ≡ o
      → Answer s q c (by_action now ttl db_now fresh_id a s q c o)
  unfolding Answer by_action
  by_action_lem none s q c o ea eo = inr (refl, λ k. cc)
  by_action_lem (some auth) s q c o ea eo = inr (refl, λ k. ea)
  by_action_lem (some register) s q c (some u) ea eo =
      inl record { users = s.users; id = u.id; resolved = known u eo; answer = refl }
  by_action_lem (some register) s q c none ea eo =
      inl record { users = _; id = _; resolved = registered eo; answer = refl }
  by_action_lem (some login) s q c (some u) ea eo =
      inl record { users = _; id = _; resolved = known u eo; answer = refl }
  by_action_lem (some login) s q c none ea eo = inr (refl, λ k. cc)
  by_action_lem (some link) s q c o ea eo = rw (sym eo) (link_Answer s q c c.user_id refl)

  module _ (verify : Token → Token → Token → Outcome CallbackError Bool) where
    -- What has been checked before a callback is answered with a commit or with "OK".
    pub record Checked (s : IdentityStore) (q : LnurlAuthCallbackIn) (h : Handled) : Type 0 where
      pub challenge : LnurlAuthChallenge
      pub usable : first_where (is_usable now ttl q.k1) s.challenges ≡ some challenge
      pub same_action : action_matches challenge.action q.action ≡ true
      pub signed : verify q.k1 q.key q.sig ≡ ok true
      pub answered : Answer s q challenge h

    abbrev pub IsRefusal : IdentityStore → Handled → Type 0
    IsRefusal s h = (h.store ≡ s) × (h.status ≢ status_ok) × (h.event ≡ none)

    signature_lem :
        (s : IdentityStore) (q : LnurlAuthCallbackIn) (c : LnurlAuthChallenge) (h : Handled)
        (o : Outcome CallbackError Bool)
        → first_where (is_usable now ttl q.k1) s.challenges ≡ some c
        → action_matches c.action q.action ≡ true
        → verify q.k1 q.key q.sig ≡ o
        → after_verify now ttl db_now fresh_id s q c o ≡ ok h
        → Checked s q h ⊎ IsRefusal s h
    unfolding by_action Answer
    signature_lem s q c h (raised x) found same signed e = cc
    signature_lem s q c h (ok false) found same signed e = inr (cc, λ k. cc, cc)
    signature_lem s q c h (ok true) found same signed e = inl record {
      challenge = c;
      usable = found;
      same_action = same;
      signed = signed;
      answered = subst (Answer s q c) (cc) (by_action_lem q.action s q c _ refl refl);
    }

    pub callback_lem :
        (s : IdentityStore) (q : LnurlAuthCallbackIn) (h : Handled)
        → lnurl_auth_callback now ttl db_now fresh_id verify s q ≡ ok h
        → Checked s q h ⊎ IsRefusal s h
    unfolding lnurl_auth_callback by_action Answer
    callback_lem s q h e = elim (Option-cases (first_where (is_usable now ttl q.k1) s.challenges)) [
      | inl missing ↦ inr (ground arith, λ k. ground arith, ground arith)
      | inr (c, found) ↦ elim (Bool-cases (action_matches c.action q.action)) [
        | inr differs ↦ inr (ground arith, λ k. ground arith, ground arith)
        | inl same ↦ signature_lem s q c h _ found same refl (ground arith)
      ]
    ]

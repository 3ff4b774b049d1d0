-- ===== src/Identity/Sound.antt =====
-- The unique columns of the accounts, through any operations.
use satoidc.Common.{
  ◌≡◌, ◌≤◌, refl, sym, subst, none, List, ok, inl, inr, arith, ℕ, Option, Option-cases,
}
use satoidc.Common.Rows.{first_where, count_where}
use satoidc.Common.Rows.Counting.{count_where-append, count_where-update_first_le}
use satoidc.Common.Texts.{Text, strip, lower}
use satoidc.Models.{Uuid, Instant, Token, User, LnurlAuthChallenge}
use satoidc.Lnurl.{
  IdentityStore, LnurlAuthCallbackIn, Handled, LnurlAction, is_user, has_k1, set_pubkey,
  new_wallet_user, lnurl_auth_callback,
}
use satoidc.Lnurl.Answers.{Resolved, known, registered, linked, Answer, callback_lem}
use satoidc.Lnurl.Owned.{IsKeyed}
use satoidc.Lnurl.Keys.{callback-IsKeyed}
use satoidc.Lnurl.Challenges.{add_challenge}
use satoidc.Login.{optional_text_eq, new_user}
use satoidc.Login.Registered.{register_post-Registered}
use satoidc.Profile.{Notice, set_nickname, set_password, unset_pubkey, text_or_empty}
use satoidc.Profile.Changes.{Done, save_nickname_lem, save_email_lem, unlink_lem}
use satoidc.Profile.Password.{save_password_lem}
use satoidc.Setup.{setup_user}
use satoidc.Setup.FirstRoot.{submit_root_lem}
use satoidc.Identity.{
  Outside, IdentityStep, called_back, posted_registration, set_up, saved_nickname, saved_email,
  saved_password, unlinked, showed_challenge, IdentityReach, start, then_step,
}
use satoidc.Identity.Kept.{IsSound, IsTame, update-IsSound, readdressed-IsSound, added-IsSound}

Done-IsSound :
    (Checked : Type 0) (change : User → User) (notice : Notice) (user user' : User)
    (users users' : List User)
    → IsTame change
    → Done Checked change notice user user' users users'
    → IsSound users
    → IsSound users'
Done-IsSound Checked change notice user user' users users' tame (inl (same, _)) sound =
    subst IsSound (sym same) sound
Done-IsSound Checked change notice user user' users users' tame (inr (_, done)) sound =
    subst IsSound (sym done.table) (update-IsSound change (is_user user.id) users tame sound)

nickname-IsTame : (value : Text) → IsTame (set_nickname value)
nickname-IsTame value = record {
  id = λ u. refl;
  key = λ k u h. h;
  login = λ u. refl;
  email = λ u. refl;
}

password-IsTame : (hash : Token) → IsTame (set_password hash)
password-IsTame hash = record {
  id = λ u. refl;
  key = λ k u h. h;
  login = λ u. refl;
  email = λ u. refl;
}

unlink-IsTame : IsTame unset_pubkey
unlink-IsTame = record { id = λ u. refl; key = λ k u h. cc; login = λ u. refl; email = λ u. refl }

-- A callback gives no account a login or an address.
module _ (now : Instant) (ttl : ℕ) (db_now : Instant) (fresh_id : Uuid) where
  Resolved-count :
      (field : User → Option Text) (t : Text) (s : IdentityStore) (q : LnurlAuthCallbackIn)
      (c : LnurlAuthChallenge) (users : List User) (id : Uuid)
      → field (new_wallet_user fresh_id q.key db_now) ≡ none
      → ((u : User) → field (set_pubkey q.key u) ≡ field u)
      → Resolved now ttl db_now fresh_id s q c users id
      → count_where (λ u. optional_text_eq t (field u)) users
        ≤ count_where (λ u. optional_text_eq t (field u)) s.users
  Resolved-count field t s q c _ _ empty kept (known u e) = omega arith
  Resolved-count field t s q c _ _ empty kept (registered e) =
      rw (count_where-append, empty) (omega arith)
  Resolved-count field t s q c _ _ empty kept (linked id u owner e other) =
      count_where-update_first_le (λ u. optional_text_eq t (field u)) (is_user id)
        (set_pubkey q.key) s.users (λ x ex k. rw (kept x) at k)

  Answer_count :
      (field : User → Option Text) (t : Text) (s : IdentityStore) (q : LnurlAuthCallbackIn)
      (c : LnurlAuthChallenge) (h : Handled)
      → field (new_wallet_user fresh_id q.key db_now) ≡ none
      → ((u : User) → field (set_pubkey q.key u) ≡ field u)
      → Answer now ttl db_now fresh_id s q c h
      → count_where (λ u. optional_text_eq t (field u)) h.store.users
        ≤ count_where (λ u. optional_text_eq t (field u)) s.users
  unfolding Answer
  Answer_count field t s q c h empty kept (inr (same, _)) = rw same (omega arith)
  Answer_count field t s q c h empty kept (inl done) =
      rw done.answer (Resolved-count field t s q c done.users done.id empty kept done.resolved)

called_back-IsSound :
    (o : Outside) (now db_now : Instant) (fresh_id : Uuid) (s : IdentityStore)
    (q : LnurlAuthCallbackIn) (h : Handled)
    → first_where (is_user fresh_id) s.users ≡ none
    → lnurl_auth_callback now o.ttl db_now fresh_id o.verify_signature s q ≡ ok h
    → IsSound s.users
    → IsSound h.store.users
called_back-IsSound o now db_now fresh_id s q h fresh e sound =
    elim (callback_lem now o.ttl db_now fresh_id o.verify_signature s q h e) [
      | inr (same, _, _) ↦ rw same sound
      | inl checked ↦
          let keyed : IsKeyed h.store =
            callback-IsKeyed now o.ttl db_now fresh_id o.verify_signature s q h fresh
              record { ids = sound.ids; keys = sound.keys } e in
          record {
            ids = keyed.ids;
            keys = keyed.keys;
            logins = λ l. omega (
              arith,
              sound.logins l,
              Answer_count now o.ttl db_now fresh_id (λ u. u.login) l s q checked.challenge h refl
                  (λ u. refl) checked.answered,
            );
            emails = λ l. omega (
              arith,
              sound.emails l,
              Answer_count now o.ttl db_now fresh_id (λ u. u.email) l s q checked.challenge h refl
                  (λ u. refl) checked.answered,
            );
          }
    ]

challenge_users :
    (k1 : Token) (db_now : Instant) (action : LnurlAction) (user_id : Option Uuid)
    (s s' : IdentityStore)
    → add_challenge k1 db_now action user_id s ≡ ok (k1, s')
    → s'.users ≡ s.users
unfolding add_challenge
challenge_users k1 db_now action user_id s s' h =
    elim (Option-cases (first_where (has_k1 k1) s.challenges)) [
      | inl free ↦ ground arith
      | inr (c, there) ↦ absurd (ground arith)
    ]

step-IsSound :
    (o : Outside) (s s' : IdentityStore) → IsSound s.users → IdentityStep o s s' → IsSound s'.users
step-IsSound o s _ sound (called_back now db_now fresh_id q h fresh e) =
    called_back-IsSound o now db_now fresh_id s q h fresh e sound
step-IsSound o s _ sound
      (posted_registration db_now fresh_id session form target users' session' fresh e) =
    elim (register_post-Registered o.host_ok o.is_valid_email o.hash_password fresh_id db_now
      s.users session form target users' session' e) [
        | inl (same, _) ↦ subst IsSound (sym same) sound
        | inr done ↦ subst IsSound (sym done.added) (
            added-IsSound (new_user o.hash_password fresh_id db_now form) (strip form.login)
              (lower (strip form.email)) s.users fresh refl refl refl done.free sound)
      ]
step-IsSound o s _ sound (set_up db_now fresh_id form reply access access' users' fresh e) =
    elim (submit_root_lem o.is_valid_email o.hash_password fresh_id db_now form s.users users'
      access access' reply e) [
        | inl (same, _, _) ↦ subst IsSound (sym same) sound
        | inr (done, _) ↦ subst IsSound (sym done.added) (
            added-IsSound (setup_user o.hash_password fresh_id db_now form) (strip form.login)
              (lower (strip form.email)) s.users fresh refl refl refl done.free sound)
      ]
step-IsSound o s _ sound (saved_nickname input user user' notice users' e) =
    Done-IsSound _ _ notice user user' s.users users'
      (nickname-IsTame (strip (text_or_empty input)))
      (save_nickname_lem input user s.users notice user' users' e) sound
step-IsSound o s _ sound (saved_email input user user' notice users' e) =
    elim (save_email_lem o.is_valid_email input user s.users notice user' users' e) [
      | inl (same, _) ↦ subst IsSound (sym same) sound
      | inr (free, done) ↦ subst IsSound (sym done.table) (
          readdressed-IsSound (lower (strip (text_or_empty input))) user.id s.users free.free sound)
    ]
step-IsSound o s _ sound (saved_password current new confirm user user' notice users' e) =
    Done-IsSound _ _ notice user user' s.users users'
      (password-IsTame (o.hash_password (text_or_empty new)))
      (save_password_lem o.verify_password o.hash_password current new confirm user s.users notice
        user' users' e)
      sound
step-IsSound o s _ sound (unlinked user user' notice users' e) =
    Done-IsSound _ _ notice user user' s.users users' unlink-IsTame
      (unlink_lem user s.users notice user' users' e) sound
step-IsSound o s _ sound (showed_challenge k1 db_now action user_id {s'} e) =
    subst IsSound (sym (challenge_users k1 db_now action user_id s s' e)) sound

-- However the accounts came about from sound ones, by the wallet's callback, the two forms, the profile and
-- the pages that show a challenge, with a free number for each new account: every number, wallet key,
-- login and address belongs to at most one account.
pub IdentityReach-IsSound :
    (o : Outside) (s s' : IdentityStore) → IsSound s.users → IdentityReach o s s' → IsSound s'.users
IdentityReach-IsSound o s s' sound start = sound
IdentityReach-IsSound o s s' sound (then_step {t} r step) =
    step-IsSound o t s' (IdentityReach-IsSound o s t sound r) step

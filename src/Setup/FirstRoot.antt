-- ===== src/Setup/FirstRoot.antt =====
-- What the setup has done when it ends.
use satoidc.Common.{
  ◌≡◌, ◌≢◌, refl, ap, sym, subst, Bool, true, false, not, ◌||◌, Option, none, some, List, [], ◌∷◌,
  ◌++◌, ok, raised, ok_value, if◌then◌else◌, is_some, inl, inr, ◌⊎◌,
}
use satoidc.Common.Rows.{first_where}
use satoidc.Common.Texts.{Text, is_empty, strip, lower}
use satoidc.Models.{Uuid, Instant, Token, Permission, User}
use satoidc.Permissions.Store.{AccessStore}
use satoidc.Validators.{validate_registration_form}
use satoidc.Login.{is_taken}
use satoidc.Setup.Granted.{IsSetUp, with_root-IsSetUp}
use satoidc.Setup.{
  SetupForm, SetupReply, root_created, setup_user, root_permission, rooted, refused, commit_root,
  submit_root, integrity_error,
}

module _ (is_valid_email : Text → Bool) (hash_password : Text → Token) (fresh_id : Uuid)
    (db_now : Instant) where
  -- The form was valid, its login and address were free, and the root user has been added.
  pub record IsRooted (form : SetupForm) (users users' : List User) (access access' : AccessStore)
      : Type 0 where
    pub valid :
        is_empty (
          validate_registration_form is_valid_email form.login form.nickname form.password
            form.email)
        ≡ true
    pub free : first_where (is_taken (strip form.login) (lower (strip form.email))) users ≡ none
    pub added : users' ≡ users ++ setup_user hash_password fresh_id db_now form ∷ []
    pub granted : access' ≡ record access {
      permissions = access.permissions ++ root_permission db_now access.permissions fresh_id ∷ [];
    }

  commit_tests :
      (form : SetupForm) (users users' : List User) (access access' : AccessStore)
      (reply : SetupReply) (taken : Option User) (held : Option Permission)
      → is_empty (
          validate_registration_form is_valid_email form.login form.nickname form.password
            form.email)
        ≡ true
      → first_where (is_taken (strip form.login) (lower (strip form.email))) users ≡ taken
      → (if is_some taken || is_some held
          then raised integrity_error
          else ok (rooted is_valid_email hash_password fresh_id db_now form users access))
        ≡ ok (reply, users', access')
      → IsRooted form users users' access access' × (reply ≡ root_created)
  commit_tests form users users' access access' reply (some u) held valid free h = cc
  commit_tests form users users' access access' reply none (some p) valid free h = cc
  commit_tests form users users' access access' reply none none valid free h =
      let value = ok_value refl h in
      (
        record {
          valid = valid;
          free = free;
          added = ap (λ p. p.1) value;
          granted = ap (λ p. p.2) value;
        },
        ap (λ p. p.0) value,
      )

  submit_tests :
      (form : SetupForm) (users users' : List User) (access access' : AccessStore)
      (reply : SetupReply) (valid : Bool)
      → is_empty (
          validate_registration_form is_valid_email form.login form.nickname form.password
            form.email)
        ≡ valid
      → (if not valid
          then ok (
              refused
                (validate_registration_form is_valid_email form.login form.nickname form.password
                  form.email)
                users
                access)
          else commit_root is_valid_email hash_password fresh_id db_now form users access)
        ≡ ok (reply, users', access')
      → ((users' ≡ users) × (access' ≡ access) × (reply ≢ root_created))
        ⊎ (IsRooted form users users' access access' × (reply ≡ root_created))
  submit_tests form users users' access access' reply false valid h =
      let value = ok_value refl h in
      inl (ap (λ p. p.1) value, ap (λ p. p.2) value, λ e. absurd (cc (ap (λ p. p.0) value)))
  submit_tests form users users' access access' reply true valid h =
      inr (commit_tests form users users' access access' reply _ _ valid refl h)

  pub submit_root_lem :
      (form : SetupForm) (users users' : List User) (access access' : AccessStore)
      (reply : SetupReply)
      → submit_root is_valid_email hash_password fresh_id db_now form users access
        ≡ ok (reply, users', access')
      → ((users' ≡ users) × (access' ≡ access) × (reply ≢ root_created))
        ⊎ (IsRooted form users users' access access' × (reply ≡ root_created))
  unfolding submit_root
  submit_root_lem form users users' access access' reply h =
      submit_tests form users users' access access' reply _ refl h

module _ (is_valid_email : Text → Bool) (hash_password : Text → Token) (fresh_id : Uuid)
    (db_now : Instant) where
  -- A setup form that makes a root user from free fields ends the setup: the wizard is not served again, and
  -- at every time the new account, which has the form's login, holds the root permission, while what any
  -- other account holds is as it was.
  pub submit_root-IsSetUp :
      (form : SetupForm) (users users' : List User) (access access' : AccessStore)
      → submit_root is_valid_email hash_password fresh_id db_now form users access
        ≡ ok (root_created, users', access')
      → IsSetUp fresh_id access access'
        × (users' ≡ users ++ setup_user hash_password fresh_id db_now form ∷ [])
  submit_root-IsSetUp form users users' access access' h =
      elim (submit_root_lem is_valid_email hash_password fresh_id db_now form users users' access
        access' root_created h) [
          | inl (_, _, refused) ↦ absurd (refused refl)
          | inr (done, _) ↦ (
            subst (IsSetUp fresh_id access) (sym done.granted)
                (with_root-IsSetUp db_now fresh_id access),
            done.added,
          )
        ]

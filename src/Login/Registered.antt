-- ===== src/Login/Registered.antt =====
-- The registration form: which accounts it makes.
use satoidc.Common.{
  ◌≡◌, refl, sym, subst, ap, Bool, true, false, not, Option, none, some, List, [], ◌∷◌, ◌++◌,
  Outcome, ok, >>=-ok, ok_value, if◌then◌else◌, is_some, ◌∙◌, ◌≢◌, inl, inr, ◌⊎◌,
}
use satoidc.Common.Rows.{first_where}
use satoidc.Common.Texts.{Text, codes, is_empty, text_eq, text_eq_refl, strip, lower}
use satoidc.Common.Uuids.{uuid_text, uuid_hex}
use satoidc.Models.{Uuid, Instant, Token, User}
use satoidc.Security.{Session}
use satoidc.Redirect.{safe_redirect}
use satoidc.Validators.{validate_registration_form}
use satoidc.Login.Posted.{or_raise_lem}
use satoidc.Login.{
  LoginError, RegisterSchema, or_raise, refuse, register_redirect, register_post, new_user,
  is_taken, optional_text_eq, chosen_nickname, login_post, has_identifier, same_nonce, authenticate,
  on_verified,
}
use satoidc.Login.Unique.{IsUnique, first_where_append, append_text, untaken, or_true}

module _ (host_ok : Text → Bool) (is_valid_email : Text → Bool) (hash_password : Text → Token)
    (fresh_id : Uuid) (db_now : Instant) where
  refuse_lem :
      (err to : Text) (users : List User) (session : Session) {t : Text} {users' : List User}
      {session' : Session}
      → refuse host_ok is_valid_email hash_password fresh_id db_now err to users session
        ≡ ok (t, users', session')
      → (users' ≡ users) × (session' ≡ session)
  unfolding refuse
  refuse_lem err to users session h =
      let (target, e, k) = >>=-ok (register_redirect host_ok err to) _ h in
      let value = ok_value refl k in (ap (λ p. p.1) value, ap (λ p. p.2) value)

  -- What a post that makes an account has checked.
  pub record Registered (users : List User) (session : Session) (form : RegisterSchema)
      (target : Text) (users' : List User) (session' : Session) : Type 0 where
    pub terms : form.terms_accepted ≡ true
    pub valid :
        is_empty (
          validate_registration_form is_valid_email
            (strip form.login)
            (chosen_nickname form.nickname)
            form.password
            (lower (strip form.email)))
        ≡ true
    pub confirmed : text_eq form.password form.confirm_password ≡ true
    pub free : first_where (is_taken (strip form.login) (lower (strip form.email))) users ≡ none
    pub added : users' ≡ users ++ new_user hash_password fresh_id db_now form ∷ []
    pub opened : session' ≡ record session { user_id = some (uuid_text fresh_id) }
    pub aimed : safe_redirect host_ok form.redirect_to ≡ some target

  tests :
      (users : List User) (session : Session) (form : RegisterSchema) (to target : Text)
      (users' : List User) (session' : Session)
      → safe_redirect host_ok form.redirect_to ≡ some to
      → (terms valid confirmed : Bool) (taken : Option User) → form.terms_accepted ≡ terms
      → is_empty (
          validate_registration_form is_valid_email
            (strip form.login)
            (chosen_nickname form.nickname)
            form.password
            (lower (strip form.email)))
        ≡ valid
      → text_eq form.password form.confirm_password ≡ confirmed
      → first_where (is_taken (strip form.login) (lower (strip form.email))) users ≡ taken
      → (if not terms
          then refuse host_ok is_valid_email hash_password fresh_id db_now
              (codes "terms")
              to
              users
              session
          else if not valid
          then refuse host_ok is_valid_email hash_password fresh_id db_now
              (codes "invalid")
              to
              users
              session
          else if not confirmed
          then refuse host_ok is_valid_email hash_password fresh_id db_now
              (codes "password_mismatch")
              to
              users
              session
          else if is_some taken
          then refuse host_ok is_valid_email hash_password fresh_id db_now
              (codes "duplicate")
              to
              users
              session
          else ok (
            to,
            users ++ new_user hash_password fresh_id db_now form ∷ [],
            record session { user_id = some (uuid_text fresh_id) },
          ))
        ≡ ok (target, users', session')
      → ((users' ≡ users) × (session' ≡ session))
        ⊎ Registered users session form target users' session'
  tests users session form to target users' session' aimed false v c t e1 e2 e3 e4 h =
      inl (refuse_lem _ _ _ _ h)
  tests users session form to target users' session' aimed true false c t e1 e2 e3 e4 h =
      inl (refuse_lem _ _ _ _ h)
  tests users session form to target users' session' aimed true true false t e1 e2 e3 e4 h =
      inl (refuse_lem _ _ _ _ h)
  tests users session form to target users' session' aimed true true true (some u) e1 e2 e3 e4 h =
      inl (refuse_lem _ _ _ _ h)
  tests users session form to target users' session' aimed true true true none e1 e2 e3 e4 h =
      let value = ok_value refl h in
      inr record {
        terms = e1;
        valid = e2;
        confirmed = e3;
        free = e4;
        added = ap (λ p. p.1) value;
        opened = ap (λ p. p.2) value;
        aimed = aimed ∙ ap (λ p. some p.0) (sym value);
      }

  pub register_post-Registered :
      (users : List User) (session : Session) (form : RegisterSchema) (target : Text)
      (users' : List User) (session' : Session)
      → register_post host_ok is_valid_email hash_password fresh_id db_now users session form
        ≡ ok (target, users', session')
      → ((users' ≡ users) × (session' ≡ session))
        ⊎ Registered users session form target users' session'
  unfolding register_post
  register_post-Registered users session form target users' session' h =
      let (to, e, k) = >>=-ok (or_raise (safe_redirect host_ok form.redirect_to)) _ h in
      tests users session form to target users' session' (or_raise_lem _ to e) _ _ _ _ refl refl
        refl refl k

  changed-Registered :
      (users : List User) (session : Session) (form : RegisterSchema) (target : Text)
      (users' : List User) (session' : Session)
      → register_post host_ok is_valid_email hash_password fresh_id db_now users session form
        ≡ ok (target, users', session')
      → users' ≢ users
      → Registered users session form target users' session'
  changed-Registered users session form target users' session' h changed =
      elim (register_post-Registered users session form target users' session' h) [
        | inl (same, _) ↦ absurd (changed same)
        | inr done ↦ done
      ]

  added-IsUnique :
      (users : List User) (form : RegisterSchema)
      → first_where (is_taken (strip form.login) (lower (strip form.email))) users ≡ none
      → IsUnique users
      → IsUnique (users ++ new_user hash_password fresh_id db_now form ∷ [])
  added-IsUnique users form free unique = record {
    logins = λ l.
        append_text (λ u. u.login) l (strip form.login) _ users refl
          (untaken (λ u. optional_text_eq (strip form.login) u.login) _ users (λ u h. rw h refl)
            free)
          (unique.logins l);
    emails = λ e.
        append_text (λ u. u.email) e (lower (strip form.email)) _ users refl
          (untaken (λ u. optional_text_eq (lower (strip form.email)) u.email) _ users
            (λ u h. rw h (or_true _)) free)
          (unique.emails e);
  }

  -- A registration form that is answered keeps every login and every address unique.
  pub register_post-IsUnique :
      (users : List User) (session : Session) (form : RegisterSchema) (target : Text)
      (users' : List User) (session' : Session)
      → IsUnique users
      → register_post host_ok is_valid_email hash_password fresh_id db_now users session form
        ≡ ok (target, users', session')
      → IsUnique users'
  register_post-IsUnique users session form target users' session' unique h =
      elim (register_post-Registered users session form target users' session' h) [
        | inl (same, _) ↦ subst IsUnique (sym same) unique
        | inr done ↦ subst IsUnique (sym done.added) (added-IsUnique users form done.free unique)
      ]

  -- A registration that is answered and changes the accounts: the account that it made, of whose login no other
  -- account had made an identifier, gets a session by its login and password on a form with the session's nonce,
  -- where pwdlib accepts what it has hashed.
  pub register_post-login_post :
      (users : List User) (session : Session) (form : RegisterSchema) (target : Text)
      (users' : List User) (session' : Session)
      (verify_password : Text → Option Token → Outcome LoginError Bool) (visitor : Session)
      (redirect_to : Option Text) (nxt : Text)
      → register_post host_ok is_valid_email hash_password fresh_id db_now users session form
        ≡ ok (target, users', session')
      → users' ≢ users
      → verify_password form.password (some (hash_password form.password)) ≡ ok true
      → first_where (has_identifier (strip form.login)) users ≡ none
      → same_nonce visitor.login_nonce visitor.login_nonce ≡ true
      → safe_redirect host_ok redirect_to ≡ some nxt
      → login_post host_ok verify_password users' visitor record {
        identifier = strip form.login;
        password = form.password;
        redirect_to = redirect_to;
        login_nonce = visitor.login_nonce;
      }
        ≡ ok (
          nxt,
          record {
            user_id = some (uuid_hex fresh_id);
            login_nonce = none;
            csrf_token = visitor.csrf_token;
          },
        )
  unfolding login_post authenticate on_verified
  register_post-login_post users session form target users' session' verify_password visitor
        redirect_to nxt answered changed verified free nonce to =
      let done = changed-Registered users session form target users' session' answered changed in
      rw
        (
          nonce,
          to,
          done.added,
          first_where_append (has_identifier (strip form.login))
              (new_user hash_password fresh_id db_now form) users free,
          text_eq_refl (strip form.login),
          or_true (text_eq (lower (strip form.email)) (strip form.login)),
          verified,
        )
        refl

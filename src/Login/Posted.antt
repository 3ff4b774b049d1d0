-- ===== src/Login/Posted.antt =====
-- The login form: who gets a session.
use satoidc.Common.{
  ◌≡◌, ◌≢◌, refl, sym, ap, Bool, true, false, not, Option, none, some, List, Outcome, ok, raised,
  ◌>>=◌, ◌∙◌, >>=-ok, ok_parts, if◌then◌else◌, inl, inr, ◌⊎◌, arith,
}
use satoidc.Common.Rows.{first_where}
use satoidc.Common.Texts.{Text, codes}
use satoidc.Common.Uuids.{uuid_hex}
use satoidc.Models.{Token, User}
use satoidc.Security.{Session}
use satoidc.Redirect.{safe_redirect}
use satoidc.Login.{
  LoginError, LoginSchema, or_raise, has_identifier, same_nonce, forget_nonce, authenticate,
  login_post, on_verified,
}

same_nonce_lem :
    (expected given : Option Token)
    → same_nonce expected given ≡ true
    → (n : Token) × (n ≢ 0) × (expected ≡ some n) × (given ≡ some n)
same_nonce_lem none given h = cc
same_nonce_lem (some n) none h = cc
same_nonce_lem (some n) (some m) h = (n, λ e. ground arith, refl, ground arith)

pub or_raise_lem : (o : Option Text) (t : Text) → or_raise o ≡ ok t → o ≡ some t
or_raise_lem none t h = cc
or_raise_lem (some s) t h = cc

module _ (host_ok : Text → Bool)
    (verify_password : Text → Option Token → Outcome LoginError Bool) where
  -- What a post that opens a session has checked.
  pub record Opened (users : List User) (session : Session) (form : LoginSchema) (target : Text)
      (session' : Session) : Type 0 where
    pub user : User
    pub nonce : Token
    pub some_nonce : nonce ≢ 0
    pub expected : session.login_nonce ≡ some nonce
    pub given : form.login_nonce ≡ some nonce
    pub found : first_where (has_identifier form.identifier) users ≡ some user
    pub verified : verify_password form.password user.password_hash ≡ ok true
    pub opened : session'.user_id ≡ some (uuid_hex user.id)
    pub aimed : safe_redirect host_ok form.redirect_to ≡ some target

  abbrev SignedIn : Session → Text → Text → Option User → Text → Session → Type 0
  SignedIn session nxt password found target session' =
      (u : User) × (found ≡ some u)
      × (verify_password password u.password_hash ≡ ok true)
      × (target ≡ nxt)
      × (session' ≡ record session { user_id = some (uuid_hex u.id) })

  verified_lem :
      (session : Session) (nxt password : Text) (u : User) (target : Text) (session' : Session)
      (o : Outcome LoginError Bool)
      → verify_password password u.password_hash ≡ o
      → (o >>= on_verified host_ok verify_password session nxt u) ≡ ok (target, session')
      → (session' ≡ session) ⊎ SignedIn session nxt password (some u) target session'
  unfolding on_verified
  verified_lem session nxt password u target session' (raised x) e h = cc
  verified_lem session nxt password u target session' (ok true) e h =
      inr (u, refl, e, (ok_parts refl h).0, (ok_parts refl h).1)
  verified_lem session nxt password u target session' (ok false) e h = inl (ok_parts refl h).1

  authenticate_lem :
      (session : Session) (nxt password : Text) (found : Option User) (target : Text)
      (session' : Session)
      → authenticate host_ok verify_password session nxt password found ≡ ok (target, session')
      → (session' ≡ session) ⊎ SignedIn session nxt password found target session'
  unfolding authenticate
  authenticate_lem session nxt password none target session' h = inl (ok_parts refl h).1
  authenticate_lem session nxt password (some u) target session' h =
      verified_lem session nxt password u target session' _ refl h

  passed_nonce :
      (users : List User) (session : Session) (form : LoginSchema) (target : Text)
      (session' : Session)
      → same_nonce session.login_nonce form.login_nonce ≡ true
      → (or_raise (safe_redirect host_ok form.redirect_to) >>= λ nxt.
          authenticate host_ok verify_password
            (forget_nonce session)
            nxt
            form.password
            (first_where (has_identifier form.identifier) users))
        ≡ ok (target, session')
      → (session'.login_nonce ≡ none)
        × ((session'.user_id ≡ session.user_id) ⊎ Opened users session form target session')
  passed_nonce users session form target session' same h =
      let (nxt, e, k) = >>=-ok (or_raise (safe_redirect host_ok form.redirect_to)) _ h in
      let (n, nonzero, expected, given) =
        same_nonce_lem session.login_nonce form.login_nonce same in
      elim (authenticate_lem (forget_nonce session) nxt form.password _ target session' k) [
        | inl as_before ↦ (ap (λ x. x.login_nonce) as_before, inl (ap (λ x. x.user_id) as_before))
        | inr (u, found, verified, to, opened) ↦ (
          ap (λ x. x.login_nonce) opened,
          inr record {
            user = u;
            nonce = n;
            some_nonce = nonzero;
            expected = expected;
            given = given;
            found = found;
            verified = verified;
            opened = ap (λ x. x.user_id) opened;
            aimed = or_raise_lem _ nxt e ∙ ap some (sym to);
          },
        )
      ]

  nonce_test :
      (users : List User) (session : Session) (form : LoginSchema) (target : Text)
      (session' : Session) (b : Bool)
      → same_nonce session.login_nonce form.login_nonce ≡ b
      → (if not b
          then ok (codes "/login?err=bad_flow", forget_nonce session)
          else or_raise (safe_redirect host_ok form.redirect_to) >>= λ nxt.
              authenticate host_ok verify_password
                (forget_nonce session)
                nxt
                form.password
                (first_where (has_identifier form.identifier) users))
        ≡ ok (target, session')
      → (session'.login_nonce ≡ none)
        × ((session'.user_id ≡ session.user_id) ⊎ Opened users session form target session')
  nonce_test users session form target session' true same h =
      passed_nonce users session form target session' same h
  nonce_test users session form target session' false differs h =
      let e = (ok_parts refl h).1 in (ap (λ x. x.login_nonce) e, inl (ap (λ x. x.user_id) e))

  -- A posted form leaves the session's user as it was, or the form has the session's nonce, which is not
  -- empty, the account of its identifier has its password, the session is now that account's, and the
  -- browser is sent to what `safe_redirect` makes of the form's target. The nonce is gone in both cases.
  pub login_post-Opened :
      (users : List User) (session : Session) (form : LoginSchema) (target : Text)
      (session' : Session)
      → login_post host_ok verify_password users session form ≡ ok (target, session')
      → (session'.login_nonce ≡ none)
        × ((session'.user_id ≡ session.user_id) ⊎ Opened users session form target session')
  unfolding login_post
  login_post-Opened users session form target session' h =
      nonce_test users session form target session' _ refl h

-- ===== src/Tests/Pages.antt =====
-- Registration and login, redirects, paths and settings.
use satoidc.Common.{
  ◌⊎◌, ◌≡◌, ◌<◌, refl, true, none, some, [], ◌∷◌, false, ◌≢◌, ◌++◌, ok, ◌↔◌, arith,
}
use satoidc.Common.Texts.{Text, codes, starts_with, strip, lower}
use satoidc.Common.Rows.{first_where, All}
use satoidc.Common.Uuids.{uuid_hex, uuid_text}
use satoidc.Common.Quoting.{unquote}
use satoidc.Middleware.{dispatch, redirect, full_path, login_prefix}
use satoidc.Middleware.Boundary.{dispatch-redirect}
use satoidc.Redirect.{safe_redirect}
use satoidc.Redirect.Relative.{has_host, safe_redirect-same}
use satoidc.Validators.{
  is_valid_login, is_valid_nickname, is_valid_password, validate_registration_form, is_lower_digit,
  is_special, is_digit,
}
use satoidc.Validators.Rules.{Counted, IsStrong, validate_registration_form-accepts}
use satoidc.Login.{login_post, register_post, has_identifier}
use satoidc.Login.Registered.{register_post-login_post}
use satoidc.Tests.Data.{any_host, alice, visitor, verify_password, hash_password}
use satoidc.Tests.Forms.{register_form, any_email, both, bob_session}

registers :
    register_post any_host any_email hash_password 2 50 (alice ∷ []) visitor register_form
    ≡ ok (codes "/", both, bob_session)
unfolding register_post safe_redirect validate_registration_form is_valid_login is_valid_nickname
    is_valid_password is_special is_digit lower strip uuid_text
registers = refl

more_users : both ≢ alice ∷ []
more_users = λ e. cc

free_login : first_where (has_identifier (strip register_form.login)) (alice ∷ []) ≡ none
unfolding strip
free_login = refl

root_target : safe_redirect any_host none ≡ some (codes "/")
unfolding safe_redirect
root_target = refl

register_post-login_post_example :
    login_post any_host verify_password both visitor record {
      identifier = strip register_form.login;
      password = register_form.password;
      redirect_to = none;
      login_nonce = some 9;
    }
    ≡ ok (codes "/", record { user_id = some (uuid_hex 2); login_nonce = none; csrf_token = none })
register_post-login_post_example =
    register_post-login_post any_host any_email hash_password 2 50 (alice ∷ []) visitor
      register_form (codes "/") both bob_session verify_password visitor none (codes "/") registers
      more_users refl free_login refl root_target

validate_registration_form-accepts_example :
    (validate_registration_form any_email
        (codes "bobbob")
        (codes "Bob")
        (codes "Abcdefg1!")
        (codes "b@c.d")
      ≡ [])
    ↔ (Counted is_lower_digit 6 30 (codes "bobbob")
        × (is_valid_nickname (codes "Bob") ≡ true)
        × IsStrong (codes "Abcdefg1!")
        × (any_email (codes "b@c.d") ≡ true))
validate_registration_form-accepts_example =
    validate_registration_form-accepts any_email (codes "bobbob") (codes "Bob") (codes "Abcdefg1!")
      (codes "b@c.d")

valid_nickname : is_valid_nickname (codes "a.b") ≡ true
unfolding is_valid_nickname
valid_nickname = refl

ascii_path : All (λ c. c < 128) (full_path (codes "/p") (codes "a=1"))
ascii_path = ground arith

dispatch-redirect_example :
    (target : Text) × (dispatch (codes "/p") (codes "a=1") visitor
      ≡ redirect (login_prefix ++ target))
    × (unquote target ≡ full_path (codes "/p") (codes "a=1"))
dispatch-redirect_example =
    dispatch-redirect (codes "/p") (codes "a=1") visitor refl refl ascii_path

safe_redirect-same_example :
    ((safe_redirect any_host (some (codes "/profile?a=//b")) ≡ some (codes "/profile?a=//b"))
      ⊎ ((safe_redirect any_host (some (codes "/profile?a=//b")) ≡ some (codes "/"))
          ⊎ (safe_redirect any_host (some (codes "/profile?a=//b")) ≡ none)))
    × ((safe_redirect any_host (some (codes "/profile?a=//b")) ≡ some (codes "/profile?a=//b")) ↔ (
        (starts_with (codes "/") (codes "/profile?a=//b") ≡ true)
        × (has_host (codes "/profile?a=//b") ≡ false)))
safe_redirect-same_example = safe_redirect-same any_host (codes "/profile?a=//b") refl

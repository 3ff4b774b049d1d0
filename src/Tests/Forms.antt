-- ===== src/Tests/Forms.antt =====
-- Forms, redirects, paths and settings.
use satoidc.Common.{
  ℕ, ◌≡◌, ◌≢◌, ◌≤◌, ◌<◌, refl, Bool, true, false, Option, none, some, List, [], ◌∷◌, ◌++◌, Outcome,
  ok, raised, ◌↔◌, ◌⊎◌, arith,
}
use satoidc.Common.Texts.{Text, codes, strip, lower}
use satoidc.Common.Uuids.{uuid_hex}
use satoidc.Models.{User}
use satoidc.Security.{Session}
use satoidc.Redirect.{safe_redirect}
use satoidc.Validators.{
  is_valid_login, is_valid_nickname, is_valid_password, validate_registration_form, is_special,
  is_digit,
}
use satoidc.Login.{
  LoginSchema, RegisterSchema, login_post, authenticate, on_verified, register_post, new_user,
}
use satoidc.Login.Posted.{Opened, login_post-Opened}
use satoidc.Login.Unique.{IsUnique}
use satoidc.Tests.Data.{any_host, alice, alice_id, visitor, verify_password, hash_password}

abbrev login_form : LoginSchema
login_form = record {
  identifier = codes "alice1";
  password = codes "secret";
  redirect_to = none;
  login_nonce = some 9;
}

abbrev alice_opened : Session
alice_opened = record { user_id = some (uuid_hex alice_id); login_nonce = none; csrf_token = none }

opens :
    login_post any_host verify_password (alice ∷ []) visitor login_form
    ≡ ok (codes "/", alice_opened)
unfolding login_post authenticate on_verified safe_redirect
opens = refl

login_post-Opened_example :
    (alice_opened.login_nonce ≡ none)
    × ((alice_opened.user_id ≡ visitor.user_id)
        ⊎ Opened any_host verify_password (alice ∷ []) visitor login_form (codes "/") alice_opened)
login_post-Opened_example =
    login_post-Opened any_host verify_password (alice ∷ []) visitor login_form (codes "/")
      alice_opened opens

abbrev pub register_form : RegisterSchema
register_form = record {
  login = codes "bobbob";
  email = codes "B@c.d";
  nickname = none;
  password = codes "Abcdefg1!";
  confirm_password = codes "Abcdefg1!";
  redirect_to = none;
  terms_accepted = true;
}

abbrev pub any_email : Text → Bool
any_email e = true

abbrev pub both : List User
both = alice ∷ new_user hash_password 2 50 register_form ∷ []

abbrev pub bob_session : Session
bob_session = record visitor { user_id = some (codes "00000000-0000-0000-0000-000000000002") }

registers :
    register_post any_host any_email hash_password 2 50 (alice ∷ []) visitor register_form
    ≡ ok (codes "/", both, bob_session)
unfolding register_post safe_redirect validate_registration_form is_valid_login is_valid_nickname
    is_valid_password is_special is_digit lower strip satoidc.Common.Uuids.uuid_text
registers = refl

alice-IsUnique : IsUnique (alice ∷ [])
alice-IsUnique = record { logins = λ l. ground arith; emails = λ e. ground arith }

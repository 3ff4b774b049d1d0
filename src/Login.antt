-- ===== src/Login.antt =====
-- satoidc/satoidc/routes/login.py and satoidc/satoidc/routes/register.py: the posted forms, the logout and
-- the page to which a wallet login leads. `hash_password` and `verify_password` stand for pwdlib,
-- `host_ok` for a part of `urlparse`, `is_valid_email` for pydantic's check.
pub mod Unique
pub mod Posted
pub mod Registered
pub mod Wallet
pub mod Page
pub mod Returned
pub mod Arrived
use satoidc.Common.{
  ℕ, ◌≡◌, Bool, true, false, not, ◌&&◌, ◌||◌, Option, none, some, List, [], ◌∷◌, ◌++◌, Outcome, ok,
  raised, ◌>>=◌, ◌==◌, if◌then◌else◌, is_some,
}
use satoidc.Common.Rows.{first_where}
use satoidc.Common.Texts.{Text, codes, is_empty, text_eq, strip, lower}
use satoidc.Common.Quoting.{quote}
use satoidc.Common.Uuids.{uuid_hex, uuid_text}
use satoidc.Models.{Uuid, Instant, Token, User}
use satoidc.Security.{Session}
use satoidc.Redirect.{safe_redirect}
use satoidc.Validators.{validate_registration_form}
use satoidc.Lnurl.{AuthEvent}

pub data LoginError : Type 0 where
  value_error verify_error : LoginError

-- `safe_redirect`, raising.
abbrev pub or_raise : Option Text → Outcome LoginError Text
or_raise none = raised value_error
or_raise (some t) = ok t

pub record LoginSchema : Type 0 where
  pub identifier : Text
  pub password : Text
  pub redirect_to : Option Text
  pub login_nonce : Option Token

pub record RegisterSchema : Type 0 where
  pub login : Text
  pub email : Text
  pub nickname : Option Text
  pub password : Text
  pub confirm_password : Text
  pub redirect_to : Option Text
  pub terms_accepted : Bool

abbrev pub optional_text_eq : Text → Option Text → Bool
optional_text_eq t none = false
optional_text_eq t (some s) = text_eq s t

abbrev pub has_identifier : Text → User → Bool
has_identifier t u = optional_text_eq t u.email || optional_text_eq t u.login

-- `not expected or not given or given != expected` is false.
abbrev pub same_nonce : Option Token → Option Token → Bool
same_nonce none given = false
same_nonce (some n) none = false
same_nonce (some n) (some m) = not (n == 0) && not (m == 0) && m == n

abbrev pub forget_nonce : Session → Session
forget_nonce session = record session { login_nonce = none }

-- `quote(value or "", safe="")`
unfoldable pub encode_query_value : Text → Text
encode_query_value value = quote value

-- `.replace("'", "&#x27;")`
unfoldable pub hidden_value : Text → Text
hidden_value [] = []
hidden_value (c ∷ s) =
    let rest = hidden_value s in if c == b'\'' then codes "&#x27;" ++ rest else c ∷ rest

-- `(nickname or "").strip() or "Satoshi"`
abbrev pub chosen_nickname : Option Text → Text
chosen_nickname none = codes "Satoshi"
chosen_nickname (some n) = let s = strip n in if is_empty s then codes "Satoshi" else s

abbrev pub is_taken : Text → Text → User → Bool
is_taken login email u = optional_text_eq login u.login || optional_text_eq email u.email

abbrev pub new_user : (Text → Token) → Uuid → Instant → RegisterSchema → User
new_user hash_password fresh_id db_now form = record {
  id = fresh_id;
  lnurl_pubkey = none;
  email = some (lower (strip form.email));
  login = some (strip form.login);
  password_hash = some (hash_password form.password);
  nickname = chosen_nickname form.nickname;
  is_active = true;
  created_at = db_now;
}

module _ (host_ok : Text → Bool) where
  module _ (verify_password : Text → Option Token → Outcome LoginError Bool) where
    unfoldable pub invalid : Text → Text
    unfolding encode_query_value
    invalid nxt = codes "/login?err=invalid&redirect_to=" ++ encode_query_value nxt

    unfoldable pub on_verified : Session → Text → User → Bool → Outcome LoginError (Text × Session)
    unfolding invalid
    on_verified session nxt u true = ok (nxt, record session { user_id = some (uuid_hex u.id) })
    on_verified session nxt u false = ok (invalid nxt, session)

    unfoldable pub authenticate :
        Session → Text → Text → Option User → Outcome LoginError (Text × Session)
    unfolding invalid on_verified
    authenticate session nxt password none = ok (invalid nxt, session)
    authenticate session nxt password (some u) =
        verify_password password u.password_hash >>= on_verified session nxt u

    -- The target of the redirect and the session.
    unfoldable pub login_post :
        List User → Session → LoginSchema → Outcome LoginError (Text × Session)
    unfolding authenticate
    login_post users session form =
        if not (same_nonce session.login_nonce form.login_nonce)
        then ok (codes "/login?err=bad_flow", forget_nonce session)
        else do
          nxt ← or_raise (safe_redirect host_ok form.redirect_to)
          authenticate (forget_nonce session) nxt form.password
              (first_where (has_identifier form.identifier) users)

  unfoldable pub register_redirect : Text → Text → Outcome LoginError Text
  register_redirect err redirect_to = do
    target ← or_raise (safe_redirect host_ok (some redirect_to))
    ok (codes "/register?err=" ++ err ++ codes "&redirect_to=" ++ quote target)

  module _ (is_valid_email : Text → Bool) (hash_password : Text → Token) (fresh_id : Uuid)
      (db_now : Instant) where
    unfoldable pub refuse :
        Text → Text → List User → Session → Outcome LoginError (Text × List User × Session)
    refuse err redirect_to users session = do
      target ← register_redirect err redirect_to
      ok (target, users, session)

    -- The target of the redirect, the accounts and the session.
    unfoldable pub register_post :
        List User → Session → RegisterSchema → Outcome LoginError (Text × List User × Session)
    unfolding refuse
    register_post users session form = do
      redirect_to ← or_raise (safe_redirect host_ok form.redirect_to)
      let login = strip form.login
      let email = lower (strip form.email)
      if not form.terms_accepted
          then refuse (codes "terms") redirect_to users session
          else if not (
              is_empty (
                validate_registration_form is_valid_email login (chosen_nickname form.nickname)
                  form.password email))
          then refuse (codes "invalid") redirect_to users session
          else if not (text_eq form.password form.confirm_password)
          then refuse (codes "password_mismatch") redirect_to users session
          else if is_some (first_where (is_taken login email) users)
          then refuse (codes "duplicate") redirect_to users session
          else ok (
            redirect_to,
            users ++ new_user hash_password fresh_id db_now form ∷ [],
            record session { user_id = some (uuid_text fresh_id) },
          )

-- `lnurl_auth_temp_storage`: the latest entry of a nonce comes first.
abbrev pub TempStorage : Type 0
TempStorage = List (Token × Option Uuid)

abbrev pub stored : Token → TempStorage → Option Uuid
stored nonce [] = none
stored nonce ((n, u) ∷ rest) = if n == nonce then u else stored nonce rest

abbrev pub pop : Token → TempStorage → TempStorage
pop nonce [] = []
pop nonce ((n, u) ∷ rest) = let tail = pop nonce rest in if n == nonce then tail else (n, u) ∷ tail

-- The handler of a login or register page that shows `k1` under the nonce.
unfoldable pub event_handler : Token → Token → AuthEvent → TempStorage → TempStorage
event_handler k1 nonce event storage =
    if event.k1 == k1 then (nonce, event.user_id) ∷ pop nonce storage else storage

abbrev pub stored_user : Option Token → TempStorage → Option Uuid
stored_user none storage = none
stored_user (some nonce) storage = if nonce == 0 then none else stored nonce storage

abbrev pub pop_nonce : Option Token → TempStorage → TempStorage
pop_nonce none storage = storage
pop_nonce (some nonce) storage = pop nonce storage

abbrev pub as_user : Option Uuid → Session → Session
as_user none session = session
as_user (some id) session = record session { user_id = some (uuid_text id) }

unfoldable pub lnurl_redirect :
    (Text → Bool)
    → TempStorage
    → Session
    → Option Text
    → Outcome LoginError (Text × TempStorage × Session)
lnurl_redirect host_ok storage session redirect_to = do
  target ← or_raise (safe_redirect host_ok redirect_to)
  ok (
    target,
    pop_nonce session.login_nonce storage,
    as_user (stored_user session.login_nonce storage) session,
  )

unfoldable pub logout : Session → Text × Session
logout session = (codes "/", record { user_id = none; login_nonce = none; csrf_token = none })

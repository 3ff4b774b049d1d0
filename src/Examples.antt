-- ===== src/Examples.antt =====
-- examples/public_client.py, a client of the server: what it keeps of a user, and which page it shows.
-- examples/basic_client.py has the same handlers. `int_of_text` stands for Python's reader of numbers; numbers
-- below 0 are left out. Authlib's client is what `authorize_access_token` returns or raises.
pub mod Shown
pub mod Accepted
use satoidc.Common.{
  ℕ, Bool, true, false, ◌&&◌, Option, none, some, List, [], ◌∷◌, ltb, if◌then◌else◌, ◌==◌,
}
use satoidc.Common.Texts.{Text, codes, is_empty, strip, text_eq}
use satoidc.FastApi.Dict.{Dict, get}

-- A claim as JSON has it; of a list only the texts are told apart.
pub data Value : Type 0 where
  null : Value
  number : ℕ → Value
  text : Text → Value
  values : List (Option Text) → Value

abbrev pub UserInfo : Type 0
UserInfo = Dict Value

-- `app.storage.user`, the storage of a browser
pub record Storage : Type 0 where
  pub user_info : Option UserInfo
  pub oauth_error : Option Text

pub data Page : Type 0 where
  error_shown : Text → Page
  user_shown : UserInfo → Page
  to_provider : Page

-- What `authorize_access_token` ends in. An exception has a text, an `OAuthError` also a code.
pub data Authorized : Type 0 where
  token : Option UserInfo → Authorized
  oauth_failed : Text → Text → Authorized
  failed : Text → Authorized

abbrev rstrip_slashes : Text → Text
rstrip_slashes [] = []
rstrip_slashes (c ∷ s) =
    let rest = rstrip_slashes s in if is_empty rest && c == b'/' then [] else c ∷ rest

-- The arguments as `parse_args` and the module's head read them.
pub record Arguments : Type 0 where
  pub client_id : Text
  pub provider_url : Text

unfoldable pub read_arguments : Text → Text → Arguments
read_arguments client_id provider_url = record {
  client_id = strip client_id;
  provider_url = rstrip_slashes provider_url;
}

-- `CLIENT_ID in audience`
abbrev pub is_member : Text → List (Option Text) → Bool
is_member t [] = false
is_member t (none ∷ vs) = is_member t vs
is_member t (some s ∷ vs) = if text_eq t s then true else is_member t vs

abbrev pub audience_matches : Arguments → Option Value → Bool
audience_matches args (some (text t)) = text_eq t args.client_id
audience_matches args (some (values vs)) = is_member args.client_id vs
audience_matches args _ = false

abbrev pub is_issuer : Arguments → Option Value → Bool
is_issuer args (some (text t)) = text_eq t args.provider_url
is_issuer args _ = false

module _ (int_of_text : Text → Option ℕ) (args : Arguments) where
  -- `int(user_info.get("exp", 0))`, where it does not raise
  abbrev pub int_of : Option Value → Option ℕ
  int_of none = some 0
  int_of (some (number n)) = some n
  int_of (some (text t)) = int_of_text t
  int_of (some _) = none

  unfoldable pub is_valid : ℕ → UserInfo → Bool
  is_valid now info = elim (int_of (get (codes "exp") info)) [
    | none ↦ false
    | some expires_at ↦
        ltb now expires_at
        && audience_matches args (get (codes "aud") info)
        && is_issuer args (get (codes "iss") info)
  ]

  abbrev pub or_empty_info : Option UserInfo → UserInfo
  or_empty_info none = []
  or_empty_info (some info) = info

  abbrev pub valid_or_redirect : ℕ → Option UserInfo → Page × Storage
  valid_or_redirect now info =
      if is_valid now (or_empty_info info)
      then (user_shown (or_empty_info info), record { user_info = info; oauth_error = none })
      else (to_provider, record { user_info = none; oauth_error = none })

  -- An error is shown once; claims that are not valid any more are dropped.
  unfoldable pub main : ℕ → Storage → Page × Storage
  main now s = elim s.oauth_error [
    | none ↦ valid_or_redirect now s.user_info
    | some e ↦
        if is_empty e
        then valid_or_redirect now s.user_info
        else (error_shown e, record s { oauth_error = none })
  ]

  unfoldable pub logout : Storage → Storage
  logout s = record s { user_info = none }

  abbrev mismatch : Text
  mismatch =
      codes "The provider returned a token, but its claims did not match this client configuration."

  -- `exc.error or str(exc)`
  abbrev pub error_or : Text → Text → Text
  error_or error description = if is_empty error then description else error

  -- The callback, before it redirects to `/`.
  unfoldable pub auth : ℕ → Authorized → Storage → Storage
  auth now (token info) s =
      if is_valid now (or_empty_info info)
      then record s { user_info = some (or_empty_info info) }
      else record s { oauth_error = some mismatch }
  auth now (oauth_failed error description) s = record s {
    oauth_error = some (error_or error description);
  }
  auth now (failed description) s = record s { oauth_error = some description }

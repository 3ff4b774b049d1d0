-- ===== src/Tests/Data.antt =====
-- Concrete rows and parameters.
use satoidc.Common.{ℕ, ◌+◌, Bool, true, false, Option, none, some, [], ◌∷◌, Outcome, ok, ◌==◌}
use satoidc.Common.Texts.{Text, codes}
use satoidc.Models.{
  Uuid, Token, User, LnurlAuthChallenge, OidcSigningKey, KeyStatus, active, validating, retired,
  Permission, developer, root, PermissionRequest, pending, ClientMetadata, OAuth2Client,
  OAuth2Token,
}
use satoidc.Security.{Session}
use satoidc.Lnurl.{IdentityStore, LnurlAuthCallbackIn, LnurlAction, CallbackError}
use satoidc.Login.{LoginError}
use satoidc.OidcKeys.Store.{KeyStore, KeyMaterial}
use satoidc.Permissions.Store.{AccessStore}

abbrev pub any_host : Text → Bool
any_host host = true

-- The number of the user and its text.
abbrev pub alice_id : Uuid
alice_id = 0x1234567890abcdef1234567890abcdef

abbrev pub alice_text : Text
alice_text = codes "1234567890abcdef1234567890abcdef"

abbrev pub alice : User
alice = record {
  id = alice_id;
  lnurl_pubkey = some 77;
  email = some (codes "a@b.c");
  login = some (codes "alice1");
  password_hash = some 5;
  nickname = codes "alice";
  is_active = true;
  created_at = 1;
}

abbrev pub visitor : Session
visitor = record { user_id = none; login_nonce = some 9; csrf_token = none }

abbrev pub alice_session : Session
alice_session = record { user_id = some alice_text; login_nonce = none; csrf_token = some 8 }

abbrev pub login_challenge : LnurlAuthChallenge
login_challenge = record {
  user_id = none;
  k1 = 3;
  action = codes "login";
  consumed = false;
  created_at = 10;
}

abbrev pub identities : IdentityStore
identities = record { users = alice ∷ []; challenges = login_challenge ∷ [] }

abbrev pub wallet_login : LnurlAuthCallbackIn
wallet_login = record { k1 = 3; sig = 4; key = 77; action = some LnurlAction.login }

abbrev pub verify : Token → Token → Token → Outcome CallbackError Bool
verify k1 key sig = ok (sig == k1 + 1)

-- The password `1` has the hash 5.
abbrev pub verify_password : Text → Option Token → Outcome LoginError Bool
verify_password p none = ok false
verify_password [] (some h) = ok false
verify_password (c ∷ s) (some h) = ok (h == 5)

abbrev pub hash_password : Text → Token
hash_password p = 5

abbrev pub material : ℕ → KeyMaterial
material n = record { kid = n; material = n; private_jwk = n }

abbrev pub identity : Token → Token
identity t = t

abbrev pub key_row : Token → KeyStatus → OidcSigningKey
key_row n status = record {
  kid = n;
  public_jwk = record { kid = n; material = n; alg = codes "RS256"; use_for = codes "sig" };
  private_jwk_encrypted = n;
  alg = codes "RS256";
  kty = codes "RSA";
  use_for = codes "sig";
  status = status;
  backend_reference = none;
  activated_at = none;
  validating_since = none;
  retired_at = none;
  retired_after = none;
  created_at = n;
}

abbrev pub key_store : KeyStore
key_store = record {
  signing_keys = key_row 1 active ∷ key_row 2 validating ∷ [];
  audit_events = [];
}

abbrev pub old_keys : KeyStore
old_keys = record { signing_keys = key_row 1 retired ∷ []; audit_events = [] }

abbrev pub root_permission : Permission
root_permission = record {
  user_id = alice_id;
  granted_by = none;
  id = 1;
  permission_type = root;
  expiration_date = none;
  reason = none;
  disabled = false;
  created_at = 1;
}

abbrev pub request : PermissionRequest
request = record {
  requester_id = 2;
  permission_type = developer;
  reason = none;
  id = 1;
  status = pending;
  decision_reason = none;
  decided_by = none;
  decided_at = none;
  created_at = 1;
}

abbrev pub access : AccessStore
access = record { permissions = root_permission ∷ []; permission_requests = request ∷ [] }

abbrev pub no_metadata : ClientMetadata
no_metadata = record {
  client_name = none;
  client_uri = none;
  grant_types = none;
  redirect_uris = none;
  response_types = none;
  scope = none;
  token_endpoint_auth_method = none;
  disabled_at = some 7;
  updated_at = none;
  client_secret_rotated_at = none;
}

abbrev pub client : OAuth2Client
client = record {
  id = 1;
  user_id = alice_id;
  client_id = 4;
  client_secret = 6;
  client_id_issued_at = 1;
  client_metadata = no_metadata;
}

abbrev pub refresh_row : OAuth2Token
refresh_row = record {
  user_id = alice_id;
  client_id = 4;
  token_type = codes "Bearer";
  access_token = 20;
  refresh_token = some 21;
  scope = codes "openid";
  issued_at = 1;
  access_token_revoked_at = 0;
  refresh_token_revoked_at = 0;
  expires_in = 300;
}

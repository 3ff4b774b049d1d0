-- ===== src/Models.antt =====
-- satoidc/satoidc/models/__init__.py and satoidc/satoidc/enums.py: the rows of the tables.
-- A UUID is its 128-bit number. A string that the program only stores, compares and tests for
-- emptiness (keys, hashes, nonces, codes, tokens, secrets) is a number that encodes it, with 0 for
-- the empty string; a string that the program reads is a `Text`. An instant is a count of
-- microseconds. Relationships are the foreign keys that they follow.
use satoidc.Common.{ℕ, ◌+◌, ◌*◌, Bool, false, Option, List, not, ltb, leb, ◌==◌, if◌then◌else◌}
use satoidc.Common.Texts.{Text}

abbrev pub Uuid : Type 0
Uuid = ℕ

abbrev pub Token : Type 0
Token = ℕ

-- Microseconds since the epoch.
abbrev pub Instant : Type 0
Instant = ℕ

abbrev pub seconds : ℕ → Instant
seconds n = n * 1000000

pub data PermissionType : Type 0 where
  root admin developer support : PermissionType

pub data RequestStatus : Type 0 where
  pending approved denied cancelled superseded : RequestStatus

pub data KeyStatus : Type 0 where
  active validating retired : KeyStatus

pub record User : Type 0 where
  pub id : Uuid
  pub lnurl_pubkey : Option Token
  pub email : Option Text
  pub login : Option Text
  pub password_hash : Option Token
  pub nickname : Text
  pub is_active : Bool
  pub created_at : Instant

pub record Permission : Type 0 where
  pub user_id : Uuid
  pub granted_by : Option Uuid
  pub id : ℕ
  pub permission_type : PermissionType
  pub expiration_date : Option Instant
  pub reason : Option Text
  pub disabled : Bool
  pub created_at : Instant

pub record PermissionRequest : Type 0 where
  pub requester_id : Uuid
  pub permission_type : PermissionType
  pub reason : Option Text
  pub id : ℕ
  pub status : RequestStatus
  pub decision_reason : Option Text
  pub decided_by : Option Uuid
  pub decided_at : Option Instant
  pub created_at : Instant

pub record LnurlAuthChallenge : Type 0 where
  pub user_id : Option Uuid
  pub k1 : Token
  pub action : Text
  pub consumed : Bool
  pub created_at : Instant

-- The public half of a JSON Web Key; `material` stands for the RSA parameters.
pub record PublicJwk : Type 0 where
  pub kid : Token
  pub material : Token
  pub alg : Text
  pub use_for : Text

-- `public_jwk` holds the value that the JSON of the column encodes.
pub record OidcSigningKey : Type 0 where
  pub kid : Token
  pub public_jwk : PublicJwk
  pub private_jwk_encrypted : Token
  pub alg : Text
  pub kty : Text
  pub use_for : Text
  pub status : KeyStatus
  pub backend_reference : Option Text
  pub activated_at : Option Instant
  pub validating_since : Option Instant
  pub retired_at : Option Instant
  pub retired_after : Option Instant
  pub created_at : Instant

pub data KeyEvent : Type 0 where
  created activated demoted_to_validating retired_event token_signed : KeyEvent

pub record OidcSigningKeyAuditEvent : Type 0 where
  pub event : KeyEvent
  pub kid : Token
  pub actor : Text
  pub occurred_at : Instant

-- The client's registration data: a dictionary with these keys, each present or not.
pub record ClientMetadata : Type 0 where
  pub client_name : Option Text
  pub client_uri : Option Text
  pub grant_types : Option (List Text)
  pub redirect_uris : Option (List Text)
  pub response_types : Option (List Text)
  pub scope : Option Text
  pub token_endpoint_auth_method : Option Text
  pub disabled_at : Option ℕ
  pub updated_at : Option ℕ
  pub client_secret_rotated_at : Option ℕ

-- The columns of Authlib's client mixin that the program reads, and its own.
pub record OAuth2Client : Type 0 where
  pub id : ℕ
  pub user_id : Uuid
  pub client_id : Token
  pub client_secret : Token
  pub client_id_issued_at : ℕ
  pub client_metadata : ClientMetadata

pub record OAuth2AuthorizationCode : Type 0 where
  pub user_id : Uuid
  pub code : Token
  pub client_id : Token
  pub redirect_uri : Option Text
  pub scope : Option Text
  pub nonce : Option Token
  pub auth_time : ℕ
  pub code_challenge : Option Token
  pub code_challenge_method : Option Text

-- `self.auth_time + 300 < time.time()`
abbrev pub is_expired : OAuth2AuthorizationCode → Instant → Bool
is_expired c now = ltb (seconds (c.auth_time + 300)) now

pub record OAuth2Token : Type 0 where
  pub user_id : Uuid
  pub client_id : Token
  pub token_type : Text
  pub access_token : Token
  pub refresh_token : Option Token
  pub scope : Text
  pub issued_at : ℕ
  pub access_token_revoked_at : ℕ
  pub refresh_token_revoked_at : ℕ
  pub expires_in : ℕ

abbrev pub is_refresh_token_active : OAuth2Token → Instant → Bool
is_refresh_token_active t now =
    if not (t.refresh_token_revoked_at == 0)
    then false
    else leb now (seconds (t.issued_at + t.expires_in * 2))

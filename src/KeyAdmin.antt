-- ===== src/KeyAdmin.antt =====
-- The routes under /admin/oidc/keys of satoidc/satoidc/routes/oauth2.py.
pub mod Guarded
use satoidc.Common.{
  ℕ, Bool, true, false, not, Option, none, some, List, [], ◌∷◌, Outcome, ok, raised, ◌>>=◌,
  if◌then◌else◌, map,
}
use satoidc.Common.Texts.{Text, is_empty}
use satoidc.Common.Uuids.{parse_uuid, uuid_text}
use satoidc.Models.{
  Uuid, Instant, Token, KeyStatus, validating, PermissionType, root, admin, OidcSigningKey,
}
use satoidc.Settings.{Settings}
use satoidc.Permissions.Store.{AccessStore}
use satoidc.Security.{Session, SecurityError, any, is_authorized, get_active_user_permissions}
use satoidc.OidcKeys.Store.{
  KeyStore, KeyError, unknown_key, retired_key, duplicate_kid, KeyMaterial, create_signing_key,
}
use satoidc.OidcKeys.Lifecycle.{
  activate_signing_key, rotate_signing_key, retire_expired_signing_keys,
}
use satoidc.OidcKeys.Publish.{list_signing_keys}

-- `HTTPException` with its detail; a duplicate kid is an error of the database.
pub data KeyRouteError : Type 0 where
  login_required invalid_session forbidden : KeyRouteError
  bad_request : KeyError → KeyRouteError
  server_error : KeyRouteError

-- `_key_response`
pub record KeyResponse : Type 0 where
  pub kid : Token
  pub alg : Text
  pub kty : Text
  pub use_for : Text
  pub status : KeyStatus
  pub backend_reference : Option Text
  pub created_at : Instant
  pub activated_at : Option Instant
  pub validating_since : Option Instant
  pub retired_at : Option Instant
  pub retired_after : Option Instant

abbrev pub key_response : OidcSigningKey → KeyResponse
key_response k = record {
  kid = k.kid;
  alg = k.alg;
  kty = k.kty;
  use_for = k.use_for;
  status = k.status;
  backend_reference = k.backend_reference;
  created_at = k.created_at;
  activated_at = k.activated_at;
  validating_since = k.validating_since;
  retired_at = k.retired_at;
  retired_after = k.retired_after;
}

pub data KeyRoute : Type 0 where
  list_keys create_key rotate_key retire_expired_keys : KeyRoute
  activate_key : Token → KeyRoute

pub data KeyReply : Type 0 where
  keys : List KeyResponse → KeyReply
  one_key : KeyResponse → KeyReply
  retired_count : ℕ → KeyReply

abbrev pub admin_uuid : Option Uuid → Outcome KeyRouteError Uuid
admin_uuid none = raised invalid_session
admin_uuid (some uid) = ok uid

abbrev pub read_session : Option Text → Outcome KeyRouteError Uuid
read_session none = raised login_required
read_session (some t) = if is_empty t then raised login_required else admin_uuid (parse_uuid t)

-- `str(uid)` of an account with one of the permissions, given what `is_authorized` says.
abbrev pub actor_if : Uuid → Outcome SecurityError Bool → Outcome KeyRouteError Text
actor_if uid (ok true) = ok (uuid_text uid)
actor_if uid (ok false) = raised forbidden
actor_if uid (raised e) = raised server_error

unfoldable pub require_key_admin : Instant → AccessStore → Session → Outcome KeyRouteError Text
require_key_admin db_now access session = do
  uid ← read_session session.user_id
  actor_if uid
      (is_authorized (get_active_user_permissions db_now access uid) (admin ∷ root ∷ []) any)

abbrev pub or_server_error : {A : Type 0} → Outcome KeyError A → Outcome KeyRouteError A
or_server_error (ok a) = ok a
or_server_error (raised e) = raised server_error

-- `except ValueError`
abbrev pub or_bad_request : {A : Type 0} → Outcome KeyError A → Outcome KeyRouteError A
or_bad_request (ok a) = ok a
or_bad_request (raised e) = raised (bad_request e)

module _ (env : Settings) (encrypt : Token → Token) (db_now now : Instant) (m : KeyMaterial) where
  unfoldable pub admin_list_oidc_keys : KeyStore → Outcome KeyRouteError (KeyReply × KeyStore)
  admin_list_oidc_keys s = do
    (ks, s') ← or_server_error (list_signing_keys env encrypt db_now m now s)
    ok (keys (map key_response ks), s')

  unfoldable pub admin_create_oidc_key :
      Text → KeyStore → Outcome KeyRouteError (KeyReply × KeyStore)
  admin_create_oidc_key actor s = do
    (k, s') ← or_server_error (create_signing_key env encrypt db_now m validating actor now s)
    ok (one_key (key_response k), s')

  unfoldable pub admin_rotate_oidc_key :
      Text → KeyStore → Outcome KeyRouteError (KeyReply × KeyStore)
  admin_rotate_oidc_key actor s = do
    (k, s') ← or_server_error (rotate_signing_key env encrypt db_now m actor now s)
    ok (one_key (key_response k), s')

  unfoldable pub admin_retire_expired_oidc_keys :
      Text → KeyStore → Outcome KeyRouteError (KeyReply × KeyStore)
  admin_retire_expired_oidc_keys actor s =
      let (count, s') = retire_expired_signing_keys db_now actor now s in
      ok (retired_count count, s')

  unfoldable pub admin_activate_oidc_key :
      Token → Text → KeyStore → Outcome KeyRouteError (KeyReply × KeyStore)
  admin_activate_oidc_key kid actor s = do
    (k, s') ← or_bad_request (activate_signing_key env db_now kid actor now s)
    ok (one_key (key_response k), s')

  unfoldable pub by_route : KeyRoute → Text → KeyStore → Outcome KeyRouteError (KeyReply × KeyStore)
  unfolding admin_list_oidc_keys admin_create_oidc_key admin_rotate_oidc_key
      admin_retire_expired_oidc_keys admin_activate_oidc_key
  by_route list_keys actor s = admin_list_oidc_keys s
  by_route create_key actor s = admin_create_oidc_key actor s
  by_route rotate_key actor s = admin_rotate_oidc_key actor s
  by_route retire_expired_keys actor s = admin_retire_expired_oidc_keys actor s
  by_route (activate_key kid) actor s = admin_activate_oidc_key kid actor s

  -- Every route asks for the administrator first.
  unfoldable pub handle :
      AccessStore → Session → KeyRoute → KeyStore → Outcome KeyRouteError (KeyReply × KeyStore)
  unfolding require_key_admin by_route
  handle access session route s = do
    actor ← require_key_admin db_now access session
    by_route route actor s

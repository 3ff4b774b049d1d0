-- ===== src/KeyAdmin/Guarded.antt =====
-- Who may work on the signing keys.
use satoidc.Common.{
  ◌≡◌, refl, sym, ap, ◌∙◌, Bool, true, false, Option, none, some, List, [], ◌∷◌, Outcome, ok,
  raised, ◌>>=◌, >>=-ok, ok_parts, map,
}
use satoidc.Common.Texts.{Text}
use satoidc.Common.Uuids.{parse_uuid, uuid_text}
use satoidc.Models.{Uuid, Instant, Token, root, admin, OidcSigningKey}
use satoidc.Settings.{Settings}
use satoidc.Permissions.Store.{AccessStore}
use satoidc.Security.{Session, SecurityError, any, is_authorized, get_active_user_permissions}
use satoidc.OidcKeys.Store.{KeyStore, KeyMaterial, KeyError, ensure_active_signing_key}
use satoidc.OidcKeys.Publish.{list_signing_keys}
use satoidc.OidcKeys.Steps.{KeyStep}
use satoidc.KeyAdmin.{
  keys, one_key, key_response, KeyRouteError, KeyRoute, KeyReply, list_keys, create_key, rotate_key,
  retire_expired_keys, activate_key, read_session, admin_uuid, actor_if, require_key_admin,
  or_server_error, or_bad_request, by_route, handle, admin_list_oidc_keys, admin_create_oidc_key,
  admin_rotate_oidc_key, admin_retire_expired_oidc_keys, admin_activate_oidc_key,
}

-- The session is of an account that now has the permission ADMIN or ROOT.
pub record IsKeyAdmin (db_now : Instant) (access : AccessStore) (session : Session) (actor : Text)
    : Type 0 where
  pub text : Text
  pub uid : Uuid
  pub in_session : session.user_id ≡ some text
  pub is_uuid : parse_uuid text ≡ some uid
  pub allowed :
      is_authorized (get_active_user_permissions db_now access uid) (admin ∷ root ∷ []) any
      ≡ ok true
  pub named : actor ≡ uuid_text uid

admin_uuid_lem : (o : Option Uuid) (uid : Uuid) → admin_uuid o ≡ ok uid → o ≡ some uid
admin_uuid_lem none uid h = cc
admin_uuid_lem (some u) uid h = cc

read_session_lem :
    (o : Option Text) (uid : Uuid)
    → read_session o ≡ ok uid
    → (t : Text) × (o ≡ some t) × (parse_uuid t ≡ some uid)
read_session_lem none uid h = cc
read_session_lem (some []) uid h = cc
read_session_lem (some (c ∷ s)) uid h = (c ∷ s, refl, admin_uuid_lem _ uid h)

actor_if_lem :
    (uid : Uuid) (m : Outcome SecurityError Bool) (actor : Text)
    → actor_if uid m ≡ ok actor
    → (m ≡ ok true) × (actor ≡ uuid_text uid)
actor_if_lem uid (ok true) actor h = (refl, cc)
actor_if_lem uid (ok false) actor h = cc
actor_if_lem uid (raised e) actor h = cc

require_lem :
    (db_now : Instant) (access : AccessStore) (session : Session) (actor : Text)
    → require_key_admin db_now access session ≡ ok actor
    → IsKeyAdmin db_now access session actor
unfolding require_key_admin
require_lem db_now access session actor h =
    let (uid, e, k) = >>=-ok (read_session session.user_id) _ h in
    let (t, in_session, is_uuid) = read_session_lem session.user_id uid e in
    let (allowed, named) = actor_if_lem uid _ actor k in
    record {
      text = t;
      uid = uid;
      in_session = in_session;
      is_uuid = is_uuid;
      allowed = allowed;
      named = named;
    }

server_lem : {A : Type 0} (m : Outcome KeyError A) (a : A) → or_server_error m ≡ ok a → m ≡ ok a
server_lem (ok b) a h = cc
server_lem (raised e) a h = cc

request_lem : {A : Type 0} (m : Outcome KeyError A) (a : A) → or_bad_request m ≡ ok a → m ≡ ok a
request_lem (ok b) a h = cc
request_lem (raised e) a h = cc

abbrev answer :
    {K : Type 0} → (K → KeyReply) → K × KeyStore → Outcome KeyRouteError (KeyReply × KeyStore)
answer view x = ok (view x.0, x.1)

-- A route that answers with a view of what a call of the key service returns.
step_of :
    {K : Type 0} (m : Outcome KeyRouteError (K × KeyStore)) (view : K → KeyReply) (s' : KeyStore)
    (reply : KeyReply)
    → (m >>= answer view) ≡ ok (reply, s')
    → (k : K) × (m ≡ ok (k, s'))
step_of m view s' reply h =
    let ((k, t), e, r) = >>=-ok m _ h in (k, e ∙ ap (λ t'. ok (k, t')) (sym (ok_parts refl r).1))

module _ (env : Settings) (encrypt : Token → Token) (db_now now : Instant) (m : KeyMaterial) where
  list_lem :
      (s s' : KeyStore) (ks : List OidcSigningKey)
      → list_signing_keys env encrypt db_now m now s ≡ ok (ks, s')
      → (k : OidcSigningKey) × (ensure_active_signing_key env encrypt db_now m now s ≡ ok (k, s'))
  unfolding list_signing_keys
  list_lem s s' ks h =
      let ((k, t), e, r) = >>=-ok (ensure_active_signing_key env encrypt db_now m now s) _ h in
      (k, e ∙ ap (λ t'. ok (k, t')) (sym (ok_parts refl r).1))

  by_route_lem :
      (route : KeyRoute) (actor : Text) (s s' : KeyStore) (reply : KeyReply)
      → by_route env encrypt db_now now m route actor s ≡ ok (reply, s')
      → KeyStep env encrypt s s'
  unfolding by_route admin_list_oidc_keys admin_create_oidc_key admin_rotate_oidc_key
      admin_retire_expired_oidc_keys admin_activate_oidc_key
  by_route_lem create_key actor s s' reply h =
      let (k, e) = step_of _ (λ k. one_key (key_response k)) s' reply h in
      KeyStep.create m actor now db_now k (server_lem _ _ e)
  by_route_lem rotate_key actor s s' reply h =
      let (k, e) = step_of _ (λ k. one_key (key_response k)) s' reply h in
      KeyStep.rotate m actor now db_now k (server_lem _ _ e)
  by_route_lem retire_expired_keys actor s s' reply h =
      KeyStep.retire_expired actor now db_now (sym (ok_parts refl h).1)
  by_route_lem (activate_key kid) actor s s' reply h =
      let (k, e) = step_of _ (λ k. one_key (key_response k)) s' reply h in
      KeyStep.activate kid actor now db_now k (request_lem _ _ e)
  by_route_lem list_keys actor s s' reply h =
      let (ks, e) = step_of _ (λ ks. keys (map key_response ks)) s' reply h in
      let (k, e') = list_lem s s' ks (server_lem _ _ e) in KeyStep.ensure m now db_now k e'

  -- A route on the signing keys only answers for the session of an account that has the permission ADMIN or
  -- ROOT at that time, and what it does to the keys is one step of the key service.
  pub handle-IsKeyAdmin :
      (access : AccessStore) (session : Session) (route : KeyRoute) (s s' : KeyStore)
      (reply : KeyReply)
      → handle env encrypt db_now now m access session route s ≡ ok (reply, s')
      → (actor : Text) × IsKeyAdmin db_now access session actor × KeyStep env encrypt s s'
  unfolding handle
  handle-IsKeyAdmin access session route s s' reply h =
      let (actor, e, k) = >>=-ok (require_key_admin db_now access session) _ h in
      (actor, require_lem db_now access session actor e, by_route_lem route actor s s' reply k)

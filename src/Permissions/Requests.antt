-- ===== src/Permissions/Requests.antt =====
-- `create_`, `approve_`, `deny_` and `cancel_permission_request` of
-- satoidc/satoidc/auth/permissions.py. Each returns the request and the tables as flushed. `now` is the
-- clock of the call, `db_now` that of the database.
use satoidc.Common.{
  ℕ, suc, false, not, ◌||◌, Option, none, some, List, [], ◌∷◌, ◌++◌, Outcome, ok, raised, ◌>>=◌,
  ◌==◌, leb, ◌&&◌, if◌then◌else◌, is_some,
}
use satoidc.Common.Rows.{first_where, update_first}
use satoidc.Common.Texts.{Text, codes, strip, is_empty}
use satoidc.Models.{
  Uuid, Instant, PermissionType, developer, RequestStatus, pending, approved, denied, cancelled,
  Permission, PermissionRequest,
}
use satoidc.Permissions.Store.{
  AccessStore, AccessError, permission_request_not_allowed, permission_eq, has_developer_access,
  is_grant, get_active_permissions_for_user, is_pending_request_of, is_pending, has_id,
  get_permission_request,
}

-- `s or None`
abbrev none_if_empty : Text → Option Text
none_if_empty s = if is_empty s then none else some s

-- `(reason or "").strip() or None`
unfoldable pub cleaned_reason : Option Text → Option Text
cleaned_reason none = none
cleaned_reason (some reason) = none_if_empty (strip reason)

-- `(decision_reason or "Approved permission request").strip()`
unfoldable pub grant_reason : Option Text → Text
grant_reason none = codes "Approved permission request"
grant_reason (some reason) =
    if is_empty reason then codes "Approved permission request" else strip reason

unfoldable pub max_request_id : List PermissionRequest → ℕ
max_request_id [] = 0
max_request_id (r ∷ rs) = let m = max_request_id rs in if leb m r.id then r.id else m

unfoldable pub max_permission_id : List Permission → ℕ
max_permission_id [] = 0
max_permission_id (p ∷ ps) = let m = max_permission_id ps in if leb m p.id then p.id else m

module _ (db_now : Instant) where
  unfoldable pub new_request : AccessStore → Uuid → PermissionType → Option Text → PermissionRequest
  unfolding max_request_id cleaned_reason
  new_request s requester_id type reason = record {
    requester_id = requester_id;
    permission_type = type;
    reason = cleaned_reason reason;
    id = suc (max_request_id s.permission_requests);
    status = pending;
    decision_reason = none;
    decided_by = none;
    decided_at = none;
    created_at = db_now;
  }

  abbrev return_or_add :
      AccessStore
      → Uuid
      → PermissionType
      → Option Text
      → Option PermissionRequest
      → Outcome AccessError (PermissionRequest × AccessStore)
  return_or_add s requester_id type reason (some r) = ok (r, s)
  return_or_add s requester_id type reason none =
      let r = new_request s requester_id type reason in
      ok (r, record s { permission_requests = s.permission_requests ++ r ∷ [] })

  unfoldable pub create_permission_request :
      AccessStore
      → Uuid
      → PermissionType
      → Option Text
      → Outcome AccessError (PermissionRequest × AccessStore)
  unfolding new_request
  create_permission_request s requester_id type reason =
      if permission_eq type developer
        && has_developer_access (get_active_permissions_for_user db_now s requester_id)
      then raised permission_request_not_allowed
      else return_or_add s requester_id type reason
          (first_where (is_pending_request_of requester_id type) s.permission_requests)

abbrev pub regrant : Uuid → Option Text → Permission → Permission
regrant actor_id decision_reason p = record p {
  disabled = false;
  expiration_date = none;
  granted_by = some actor_id;
  reason = some (grant_reason decision_reason);
}

unfoldable pub new_permission :
    Instant → AccessStore → Uuid → PermissionType → Uuid → Option Text → Permission
unfolding max_permission_id
new_permission db_now s user_id type actor_id decision_reason = record {
  user_id = user_id;
  granted_by = some actor_id;
  id = suc (max_permission_id s.permissions);
  permission_type = type;
  expiration_date = none;
  reason = some (grant_reason decision_reason);
  disabled = false;
  created_at = db_now;
}

-- The requester's row for the type is revived if there is one, and added if not.
unfoldable pub grant :
    Instant → AccessStore → Uuid → PermissionType → Uuid → Option Text → List Permission
unfolding new_permission
grant db_now s user_id type actor_id decision_reason =
    if is_some (first_where (is_grant user_id type) s.permissions)
    then update_first (is_grant user_id type) (regrant actor_id decision_reason) s.permissions
    else s.permissions ++ new_permission db_now s user_id type actor_id decision_reason ∷ []

abbrev pub decide :
    RequestStatus → Uuid → Option Text → Instant → PermissionRequest → PermissionRequest
decide status actor_id decision_reason now r = record r {
  status = status;
  decision_reason = cleaned_reason decision_reason;
  decided_by = some actor_id;
  decided_at = some now;
}

module _ (db_now now : Instant) where
  unfoldable pub approve_permission_request :
      AccessStore → ℕ → Uuid → Option Text → Outcome AccessError (PermissionRequest × AccessStore)
  unfolding grant get_permission_request
  approve_permission_request s n actor_id decision_reason = do
    r ← get_permission_request s n
    if not (is_pending r)
        then ok (r, s)
        else ok (
          decide approved actor_id decision_reason now r,
          record {
            permissions = grant db_now s r.requester_id r.permission_type actor_id decision_reason;
            permission_requests =
                update_first (has_id n) (decide approved actor_id decision_reason now)
                  s.permission_requests;
          },
        )

module _ (now : Instant) where
  unfoldable pub deny_permission_request :
      AccessStore → ℕ → Uuid → Option Text → Outcome AccessError (PermissionRequest × AccessStore)
  unfolding get_permission_request
  deny_permission_request s n actor_id decision_reason = do
    r ← get_permission_request s n
    if not (is_pending r)
        then ok (r, s)
        else ok (
          decide denied actor_id decision_reason now r,
          record s {
            permission_requests =
                update_first (has_id n) (decide denied actor_id decision_reason now)
                  s.permission_requests;
          },
        )

abbrev pub cancel : PermissionRequest → PermissionRequest
cancel r = record r { status = cancelled }

unfoldable pub cancel_permission_request :
    AccessStore → ℕ → Uuid → Outcome AccessError (PermissionRequest × AccessStore)
unfolding get_permission_request
cancel_permission_request s n requester_id = do
  r ← get_permission_request s n
  if not (r.requester_id == requester_id) || not (is_pending r)
      then ok (r, s)
      else ok (
        cancel r,
        record s { permission_requests = update_first (has_id n) cancel s.permission_requests },
      )

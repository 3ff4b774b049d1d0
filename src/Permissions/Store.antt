-- ===== src/Permissions/Store.antt =====
-- The tables of permissions and permission requests, and the queries of
-- satoidc/satoidc/auth/permissions.py. `db_now` is the clock of the database.
use satoidc.Common.{
  ℕ, zero, suc, Bool, true, false, ◌&&◌, ◌||◌, Option, none, some, List, [], ◌∷◌, map, Outcome, ok,
  raised, leb, ltb, ◌==◌, if◌then◌else◌,
}
use satoidc.Common.Rows.{first_where, rows_where, count_where}
use satoidc.Models.{
  Uuid, Instant, PermissionType, root, admin, developer, support, RequestStatus, pending, approved,
  denied, cancelled, superseded, Permission, PermissionRequest,
}

pub record AccessStore : Type 0 where
  pub permissions : List Permission
  pub permission_requests : List PermissionRequest

pub data AccessError : Type 0 where
  permission_request_not_found : ℕ → AccessError
  permission_request_not_allowed : AccessError

abbrev pub permission_eq : PermissionType → PermissionType → Bool
permission_eq root root = true
permission_eq admin admin = true
permission_eq developer developer = true
permission_eq support support = true
permission_eq _ _ = false

abbrev pub status_eq : RequestStatus → RequestStatus → Bool
status_eq pending pending = true
status_eq approved approved = true
status_eq denied denied = true
status_eq cancelled cancelled = true
status_eq superseded superseded = true
status_eq _ _ = false

-- `p in permissions`
abbrev pub elem_permission : PermissionType → List PermissionType → Bool
elem_permission p [] = false
elem_permission p (q ∷ qs) = permission_eq p q || elem_permission p qs

abbrev pub developer_access_permissions : List PermissionType
developer_access_permissions = developer ∷ admin ∷ root ∷ []

abbrev pub is_developer_permission : PermissionType → Bool
is_developer_permission p = elem_permission p developer_access_permissions

-- The intersection of the permissions with the developer set is not empty.
unfoldable pub has_developer_access : List PermissionType → Bool
has_developer_access [] = false
has_developer_access (p ∷ ps) = is_developer_permission p || has_developer_access ps

abbrev pub not_expired : Instant → Option Instant → Bool
not_expired db_now none = true
not_expired db_now (some t) = ltb db_now t

-- The permission is neither disabled nor expired.
abbrev pub is_live : Instant → Permission → Bool
is_live db_now p = elim p.disabled [ true ↦ false | false ↦ not_expired db_now p.expiration_date ]

abbrev pub is_of_user : Uuid → Permission → Bool
is_of_user user_id p = p.user_id == user_id

abbrev pub is_grant : Uuid → PermissionType → Permission → Bool
is_grant user_id type p = p.user_id == user_id && permission_eq p.permission_type type

unfoldable pub get_active_permissions_for_user : Instant → AccessStore → Uuid → List PermissionType
get_active_permissions_for_user db_now s user_id =
    map (λ p. p.permission_type)
      (rows_where (λ p. is_of_user user_id p && is_live db_now p) s.permissions)

abbrev pub is_request_of : Uuid → PermissionType → PermissionRequest → Bool
is_request_of requester_id type r =
    r.requester_id == requester_id && permission_eq r.permission_type type

abbrev pub is_pending : PermissionRequest → Bool
is_pending r = status_eq r.status pending

abbrev pub is_pending_request_of : Uuid → PermissionType → PermissionRequest → Bool
is_pending_request_of requester_id type r = is_request_of requester_id type r && is_pending r

abbrev pub has_id : ℕ → PermissionRequest → Bool
has_id n r = r.id == n

unfoldable pub insert_newest : PermissionRequest → List PermissionRequest → List PermissionRequest
insert_newest r [] = r ∷ []
insert_newest r (q ∷ qs) =
    if leb q.created_at r.created_at then r ∷ q ∷ qs else q ∷ insert_newest r qs

-- `order_by(PermissionRequest.created_at.desc())`
unfoldable pub order_newest_first : List PermissionRequest → List PermissionRequest
unfolding insert_newest
order_newest_first [] = []
order_newest_first (r ∷ rs) = insert_newest r (order_newest_first rs)

abbrev pub take_rows {ℓ} : {A : Type ℓ} → ℕ → List A → List A
take_rows zero xs = []
take_rows (suc n) [] = []
take_rows (suc n) (x ∷ xs) = x ∷ take_rows n xs

abbrev pub head_row {ℓ} : {A : Type ℓ} → List A → Option A
head_row [] = none
head_row (x ∷ xs) = some x

unfoldable pub get_latest_permission_request :
    AccessStore → Uuid → PermissionType → Option PermissionRequest
unfolding order_newest_first
get_latest_permission_request s requester_id type =
    head_row
      (order_newest_first (rows_where (is_request_of requester_id type) s.permission_requests))

abbrev of_status : Option RequestStatus → PermissionRequest → Bool
of_status none r = true
of_status (some st) r = status_eq r.status st

unfoldable pub list_permission_requests :
    AccessStore → Option RequestStatus → ℕ → List PermissionRequest
unfolding order_newest_first
list_permission_requests s status limit =
    take_rows limit (order_newest_first (rows_where (of_status status) s.permission_requests))

-- `_get_permission_request`
unfoldable pub get_permission_request : AccessStore → ℕ → Outcome AccessError PermissionRequest
get_permission_request s n = elim (first_where (has_id n) s.permission_requests) [
  | none ↦ raised (permission_request_not_found n)
  | some r ↦ ok r
]

unfoldable pub get_pending_permission_request_count : AccessStore → ℕ
get_pending_permission_request_count s = count_where is_pending s.permission_requests

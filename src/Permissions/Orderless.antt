-- ===== src/Permissions/Orderless.antt =====
-- The tables of satoidc/satoidc/auth/permissions.py without the order of their rows, which a database does not
-- promise, and the operations on requests one after another.
use mathlib.Core.Path.{◌≡◌, refl, ap, ◌∙◌}
use mathlib.Core.Quot
use mathlib.Core.Quot.{Quot}
use satoidc.Common.{ℕ, ◌≤◌, Option, List, [], ◌∷◌, Outcome, ok, raised, arith, not, ◌==◌}
use mathlib.Core.List.{Permᴰ}
use satoidc.Common.Rows.{count_where}
use satoidc.Common.Rows.Reordered.{count_where-reordered, rows_where-reordered, map-reordered}
use satoidc.Common.Texts.{Text}
use satoidc.Models.{Uuid, Instant, PermissionType, PermissionRequest}
use satoidc.Permissions.Store.{
  AccessStore, AccessError, elem_permission, has_developer_access, get_active_permissions_for_user,
  has_id, is_pending_request_of,
}
use satoidc.Permissions.Requests.{
  create_permission_request, approve_permission_request, deny_permission_request,
  cancel_permission_request,
}
use satoidc.Permissions.Abstract.{Access, view}
use satoidc.Permissions.Asks.{Access_ext}

-- The same rows, in whatever order.
abbrev pub SameRows : AccessStore → AccessStore → Type 0
SameRows s t = Permᴰ s.permissions t.permissions × Permᴰ s.permission_requests t.permission_requests

abbrev pub Tables : Type 0
Tables = Quot SameRows

-- The primary key of the requests
abbrev pub HasKeys : AccessStore → Type 0
HasKeys s = (n : ℕ) → count_where (has_id n) s.permission_requests ≤ 1

elem_permission-reordered :
    (t : PermissionType) {ps qs : List PermissionType}
    → Permᴰ ps qs
    → elem_permission t ps ≡ elem_permission t qs
elem_permission-reordered t Permᴰ.nil = refl
elem_permission-reordered t (Permᴰ.cons e d) = rw (e, elem_permission-reordered t d) refl
elem_permission-reordered t (Permᴰ.swap e e') = rw (e, e') (ground arith)
elem_permission-reordered t (Permᴰ.trans d d') =
    elem_permission-reordered t d ∙ elem_permission-reordered t d'

has_developer_access-swap :
    (p q : PermissionType) (ps : List PermissionType)
    → has_developer_access (p ∷ q ∷ ps) ≡ has_developer_access (q ∷ p ∷ ps)
unfolding has_developer_access
has_developer_access-swap p q ps = ground arith

pub has_developer_access-reordered :
    {ps qs : List PermissionType} → Permᴰ ps qs → has_developer_access ps ≡ has_developer_access qs
unfolding has_developer_access
has_developer_access-reordered Permᴰ.nil = refl
has_developer_access-reordered (Permᴰ.cons e d) = rw (e, has_developer_access-reordered d) refl
has_developer_access-reordered (Permᴰ.swap {a' = p} {b' = q} {l = ps} e e') =
    rw (e, e') (has_developer_access-swap q p ps)
has_developer_access-reordered (Permᴰ.trans d d') =
    has_developer_access-reordered d ∙ has_developer_access-reordered d'

pub get_active_permissions-reordered :
    (at : Instant) (s t : AccessStore) (u : Uuid)
    → SameRows s t
    → Permᴰ (get_active_permissions_for_user at s u) (get_active_permissions_for_user at t u)
unfolding get_active_permissions_for_user
get_active_permissions-reordered at s t u (perms, requests) =
    map-reordered _ (rows_where-reordered _ perms)

-- The abstract view does not depend on the order.
pub view-reordered : (s t : AccessStore) → SameRows s t → view s ≡ view t
unfolding view
view-reordered s t same =
    Access_ext (view s) (view t)
      (λ at u p. elem_permission-reordered p (get_active_permissions-reordered at s t u same))
      (λ u p. ap (λ n. not (n == 0)) (count_where-reordered (is_pending_request_of u p) same.1))

pub Access-set : IsSet Access
Access-set = hlevel

unfoldable pub view_of : Tables → Access
unfolding view
view_of = Quot.lift Access-set view view-reordered

pub data Operation : Type 0 where
  create : Uuid → PermissionType → Option Text → Operation
  approve : ℕ → Uuid → Option Text → Operation
  deny : ℕ → Uuid → Option Text → Operation
  cancel_own : ℕ → Uuid → Operation

abbrev pub Result : Type 0
Result = Outcome AccessError (PermissionRequest × AccessStore)

-- A call on the requests, at a time of the database and of the process
abbrev pub perform : Instant → Instant → Operation → AccessStore → Result
perform db_now now (create u t reason) s = create_permission_request db_now s u t reason
perform db_now now (approve n actor_id reason) s =
    approve_permission_request db_now now s n actor_id reason
perform db_now now (deny n actor_id reason) s = deny_permission_request now s n actor_id reason
perform db_now now (cancel_own n requester_id) s = cancel_permission_request s n requester_id

-- The request that is returned, or what is raised.
abbrev pub answer : Result → Outcome AccessError PermissionRequest
answer (raised e) = raised e
answer (ok (r, s)) = ok r

-- What has been raised leaves the tables as they were.
abbrev pub tables_after : AccessStore → Result → AccessStore
tables_after s (raised e) = s
tables_after s (ok (r, s')) = s'

-- Calls one after another, with their answers
unfoldable pub perform_all :
    List (Instant × Instant × Operation)
    → AccessStore
    → List (Outcome AccessError PermissionRequest) × AccessStore
perform_all [] s = ([], s)
perform_all ((db_now, now, o) ∷ os) s =
    let result = perform db_now now o s in
    let rest = perform_all os (tables_after s result) in (answer result ∷ rest.0, rest.1)

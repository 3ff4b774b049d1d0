-- ===== src/Permissions/Pending.antt =====
-- Asking for a permission.
use satoidc.Common.{
  ◌≡◌, true, false, ◌&&◌, Option, List, [], ◌∷◌, ◌++◌, ok, none, some, arith, inl, inr,
}
use satoidc.Common.Texts.{Text}
use satoidc.Common.Rows.{first_where}
use satoidc.Models.{Uuid, Instant, PermissionType, developer, PermissionRequest}
use satoidc.Permissions.Store.{
  AccessStore, permission_eq, has_developer_access, is_pending_request_of,
  get_active_permissions_for_user,
}
use satoidc.Permissions.Requests.{create_permission_request, new_request}
use satoidc.Permissions.Effects.{create-Changed}
use satoidc.Permissions.Matching.{permission_eq_refl}

first_pending-append :
    (u : Uuid) (t : PermissionType) (rs : List PermissionRequest) (r : PermissionRequest)
    → first_where (is_pending_request_of u t) rs ≡ none
    → is_pending_request_of u t r ≡ true
    → first_where (is_pending_request_of u t) (rs ++ r ∷ []) ≡ some r
first_pending-append u t [] r h new = ground arith
first_pending-append u t (q ∷ rs) r h new = ground (arith, first_pending-append u t rs r)

module _ (db_now later : Instant) (s s' : AccessStore) (u : Uuid) (t : PermissionType)
    (reason again : Option Text) (r : PermissionRequest)
    (created : create_permission_request db_now s u t reason ≡ ok (r, s')) where
  -- The request that is returned is the pending one of the user for the type.
  pub pending-create : first_where (is_pending_request_of u t) s'.permission_requests ≡ some r
  pending-create = elim (create-Changed db_now later s s' u t reason r created) [
    | inl (found, same) ↦ rw same found
    | inr (fresh, row, same) ↦ rw same (
        first_pending-append u t s.permission_requests r fresh
          (rw row (unfold new_request in ground (arith, permission_eq_refl t))))
  ]

  -- Asking again after a request has been made, by the same user for the same type, returns the same request and changes nothing, as long as
  -- the user has not been given the access in the meantime.
  pub create_create :
      permission_eq t developer && has_developer_access (get_active_permissions_for_user later s' u)
        ≡ false
      → create_permission_request later s' u t again ≡ ok (r, s')
  unfolding create_permission_request
  create_create without = ground (arith, pending-create)

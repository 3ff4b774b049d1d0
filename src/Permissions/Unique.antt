-- ===== src/Permissions/Unique.antt =====
-- The two constraints of the tables: one permission for each user and type
-- (`uq_permissions_user_type`), one pending request for each user and type
-- (`ix_permission_requests_one_pending_per_user_type`).
use satoidc.Common.{
  ℕ, refl, ◌≤◌, ◌≡◌, Bool, Option, true, false, List, ok, arith, inl, inr, Option-cases,
}
use satoidc.Common.Rows.{first_where, count_where, update_first}
use satoidc.Common.Texts.{Text}
use satoidc.Common.Rows.Keyed.{count_append_le}
use satoidc.Common.Rows.Counting.{count_where-update_first_le}
use satoidc.Models.{Uuid, Instant, PermissionType, Permission, PermissionRequest}
use satoidc.Permissions.Store.{AccessStore, is_grant, is_pending, is_pending_request_of, has_id}
use satoidc.Permissions.Requests.{
  grant, regrant, new_permission, new_request, create_permission_request,
  approve_permission_request, deny_permission_request, cancel_permission_request,
}
use satoidc.Permissions.Matching.{is_grant_sound, is_request_of_sound, permission_eq_refl}
use satoidc.Permissions.Effects.{
  Changed, create-Changed, approve-Changed, deny-Changed, cancel-Changed,
}

pub record IsValid (s : AccessStore) : Type 0 where
  pub grants : (u : Uuid) (t : PermissionType) → count_where (is_grant u t) s.permissions ≤ 1
  pub pendings :
      (u : Uuid) (t : PermissionType)
      → count_where (is_pending_request_of u t) s.permission_requests ≤ 1

is_pending_sound :
    (u : Uuid) (t : PermissionType) (r : PermissionRequest)
    → is_pending_request_of u t r ≡ true
    → (r.requester_id ≡ u) × (r.permission_type ≡ t)
is_pending_sound u t r h = ground (arith, is_request_of_sound u t r)

-- A grant writes the row of its user and type, or adds one where there was none.
grant_unique :
    (db_now : Instant) (s : AccessStore) (v actor_id u : Uuid) (w t : PermissionType)
    (reason : Option Text)
    → count_where (is_grant u t) s.permissions ≤ 1
    → count_where (is_grant u t) (grant db_now s v w actor_id reason) ≤ 1
unfolding grant
grant_unique db_now s v actor_id u w t reason le_one =
    elim (Option-cases (first_where (is_grant v w) s.permissions)) [
      | inl fresh ↦ rw fresh (
          count_append_le is_grant (λ p. p.user_id) (λ p. p.permission_type) is_grant_sound u v t w
            (new_permission db_now s v w actor_id reason) s.permissions le_one
            (ground (arith, permission_eq_refl w)) fresh)
      | inr (p, there) ↦ rw there (
          omega (
            arith,
            count_where-update_first_le (is_grant u t) (is_grant v w) (regrant actor_id reason)
                s.permissions (λ x e h. h),
          ))
    ]

-- A decided request is pending for nobody, so no more are pending than before.
decided_unique :
    (n : ℕ) (f : PermissionRequest → PermissionRequest) (u : Uuid) (t : PermissionType)
    (rows : List PermissionRequest)
    → ((x : PermissionRequest) → is_pending (f x) ≡ false)
    → count_where (is_pending_request_of u t) rows ≤ 1
    → count_where (is_pending_request_of u t) (update_first (has_id n) f rows) ≤ 1
decided_unique n f u t rows decides le_one = omega (
  arith,
  count_where-update_first_le (is_pending_request_of u t) (has_id n) f rows
      (λ x named pend. ground (arith, decides x)),
)

Changed-IsValid :
    (n : ℕ) (allowed : PermissionRequest → Bool) (f : PermissionRequest → PermissionRequest)
    (permissions : PermissionRequest → List Permission) (r : PermissionRequest) (s s' : AccessStore)
    → ((x : PermissionRequest) → is_pending (f x) ≡ false)
    → ((old : PermissionRequest) (u : Uuid) (t : PermissionType)
        → count_where (is_grant u t) (permissions old) ≤ 1)
    → Changed n allowed f permissions r s s'
    → IsValid s
    → IsValid s'
Changed-IsValid n allowed f permissions r s s' decides grants c v = elim c.outcome [
  | inl (refused, same_row, same) ↦ rw same v
  | inr (pend, row, requests, perms) ↦ record {
    grants = λ u t. rw perms (grants c.old u t);
    pendings =
        λ u t. rw requests (decided_unique n f u t s.permission_requests decides (v.pendings u t));
  }
]

module _ (db_now now : Instant) where
  create-IsValid :
      (s s' : AccessStore) (u : Uuid) (t : PermissionType) (reason : Option Text)
      (r : PermissionRequest)
      → create_permission_request db_now s u t reason ≡ ok (r, s')
      → IsValid s
      → IsValid s'
  create-IsValid s s' u t reason r h v = elim (create-Changed db_now now s s' u t reason r h) [
    | inl (found, same) ↦ rw same v
    | inr (fresh, row, same) ↦ rw same (record {
      grants = v.grants;
      pendings = λ w q.
          count_append_le is_pending_request_of (λ x. x.requester_id) (λ x. x.permission_type)
            is_pending_sound w u q t r s.permission_requests (v.pendings w q)
            (rw row (unfold new_request in ground (arith, permission_eq_refl t))) fresh;
    })
  ]

  -- The operations on requests, by anyone and in any order.
  pub data AccessStep (s : AccessStore) : AccessStore → Type 0 where
    create :
        (u : Uuid) (t : PermissionType) (reason : Option Text) (r : PermissionRequest)
        {s' : AccessStore}
        → create_permission_request db_now s u t reason ≡ ok (r, s')
        → AccessStep s s'
    approve :
        (n : ℕ) (actor_id : Uuid) (reason : Option Text) (r : PermissionRequest) {s' : AccessStore}
        → approve_permission_request db_now now s n actor_id reason ≡ ok (r, s')
        → AccessStep s s'
    deny :
        (n : ℕ) (actor_id : Uuid) (reason : Option Text) (r : PermissionRequest) {s' : AccessStore}
        → deny_permission_request now s n actor_id reason ≡ ok (r, s')
        → AccessStep s s'
    cancel_own :
        (n : ℕ) (requester_id : Uuid) (r : PermissionRequest) {s' : AccessStore}
        → cancel_permission_request s n requester_id ≡ ok (r, s')
        → AccessStep s s'

  -- Each operation on requests that returns keeps both constraints of the tables: at most one
  -- permission for each user and type, and at most one pending request for each user and type.
  pub AccessStep-IsValid : {s s' : AccessStore} → AccessStep s s' → IsValid s → IsValid s'
  AccessStep-IsValid {s} {s'} (AccessStep.create u t reason r h) v =
      create-IsValid s s' u t reason r h v
  AccessStep-IsValid {s} {s'} (AccessStep.approve n actor_id reason r h) v =
      Changed-IsValid n _ _ _ r s s' (λ x. refl)
        (λ old u t.
          grant_unique db_now s old.requester_id actor_id u old.permission_type t reason
            (v.grants u t))
        (approve-Changed db_now now s s' n actor_id reason r h) v
  AccessStep-IsValid {s} {s'} (AccessStep.deny n actor_id reason r h) v =
      Changed-IsValid n _ _ _ r s s' (λ x. refl) (λ old u t. v.grants u t)
        (deny-Changed db_now now s s' n actor_id reason r h) v
  AccessStep-IsValid {s} {s'} (AccessStep.cancel_own n requester_id r h) v =
      Changed-IsValid n _ _ _ r s s' (λ x. refl) (λ old u t. v.grants u t)
        (cancel-Changed db_now now s s' n requester_id r h) v

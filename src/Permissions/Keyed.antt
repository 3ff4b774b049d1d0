-- ===== src/Permissions/Keyed.antt =====
-- The numbers of the requests.
use satoidc.Common.{ℕ, ◌≡◌, ◌<◌, ◌+◌, refl, Bool, List, [], ◌∷◌, ◌++◌, inl, inr, arith}
use satoidc.Common.Rows.{count_where}
use satoidc.Common.Rows.Counting.{count_where-append, count_where-update_first_le}
use satoidc.Models.{Instant, PermissionRequest, Permission}
use satoidc.Permissions.Store.{AccessStore, has_id}
use satoidc.Permissions.Requests.{max_request_id, new_request}
use satoidc.Permissions.Effects.{
  Changed, create-Changed, approve-Changed, deny-Changed, cancel-Changed,
}
use satoidc.Permissions.Unique.{AccessStep}
use satoidc.Permissions.Orderless.{HasKeys}

above_max :
    (n : ℕ) (rs : List PermissionRequest) → max_request_id rs < n → count_where (has_id n) rs ≡ 0
unfolding max_request_id
above_max n [] h = refl
above_max n (r ∷ rs) h = ground (arith, above_max n rs)

added-HasKeys :
    (s : AccessStore) (r : PermissionRequest)
    → HasKeys s
    → r.id ≡ max_request_id s.permission_requests + 1
    → HasKeys (record s { permission_requests = s.permission_requests ++ r ∷ [] })
added-HasKeys s r keys new n =
    rw count_where-append (ground (arith, keys n, above_max n s.permission_requests))

Changed-HasKeys :
    (n : ℕ) (allowed : PermissionRequest → Bool) (f : PermissionRequest → PermissionRequest)
    (permissions : PermissionRequest → List Permission) (r : PermissionRequest) (s s' : AccessStore)
    → ((x : PermissionRequest) → (f x).id ≡ x.id)
    → Changed n allowed f permissions r s s'
    → HasKeys s
    → HasKeys s'
Changed-HasKeys n allowed f permissions r s s' kept c keys m = elim c.outcome [
  | inl (refused, row, same) ↦ rw same (keys m)
  | inr (held, row, requests, perms) ↦ rw requests (
      omega (
        arith,
        keys m,
        count_where-update_first_le (has_id m) (has_id n) f s.permission_requests
            (λ x named h. ground (arith, kept x)),
      ))
]

module _ (db_now now : Instant) where
  -- Each operation on requests that returns keeps the numbers of the requests distinct.
  pub AccessStep-HasKeys :
      {s s' : AccessStore} → AccessStep db_now now s s' → HasKeys s → HasKeys s'
  AccessStep-HasKeys {s} {s'} (AccessStep.create u t reason r h) keys =
      elim (create-Changed db_now now s s' u t reason r h) [
        | inl (found, same) ↦ rw same keys
        | inr (fresh, row, same) ↦
            rw same (added-HasKeys s r keys (rw row (unfold new_request in omega arith)))
      ]
  AccessStep-HasKeys {s} {s'} (AccessStep.approve n actor_id reason r h) keys =
      Changed-HasKeys n _ _ _ r s s' (λ x. refl)
        (approve-Changed db_now now s s' n actor_id reason r h) keys
  AccessStep-HasKeys {s} {s'} (AccessStep.deny n actor_id reason r h) keys =
      Changed-HasKeys n _ _ _ r s s' (λ x. refl)
        (deny-Changed db_now now s s' n actor_id reason r h) keys
  AccessStep-HasKeys {s} {s'} (AccessStep.cancel_own n requester_id r h) keys =
      Changed-HasKeys n _ _ _ r s s' (λ x. refl) (cancel-Changed db_now now s s' n requester_id r h)
        keys

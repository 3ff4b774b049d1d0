-- ===== src/Permissions/Effects.antt =====
-- What each operation on requests has done to the tables when it returns.
use satoidc.Common.{
  ◌==◌, ◌&&◌, ℕ, ◌≡◌, Bool, true, false, Option, List, [], ◌∷◌, ◌++◌, ok, none, some, arith, inl,
  inr, ◌⊎◌, Bool-cases, Option-cases,
}
use satoidc.Common.Texts.{Text}
use satoidc.Common.Rows.{first_where, update_first}
use satoidc.Models.{Uuid, Instant, PermissionType, approved, denied, Permission, PermissionRequest}
use satoidc.Permissions.Store.{AccessStore, is_pending, is_pending_request_of, has_id}
use satoidc.Permissions.Requests.{
  grant, new_request, decide, cancel, create_permission_request, approve_permission_request,
  deny_permission_request, cancel_permission_request,
}

abbrev pub is_own_pending : Uuid → PermissionRequest → Bool
is_own_pending requester_id r = r.requester_id == requester_id && is_pending r

-- A request was there; if it allowed the change it has been changed by `f` and the permissions have
-- been replaced, and nothing has happened otherwise.
pub record Changed (n : ℕ) (allowed : PermissionRequest → Bool)
    (f : PermissionRequest → PermissionRequest) (permissions : PermissionRequest → List Permission)
    (r : PermissionRequest) (s s' : AccessStore) : Type 0 where
  pub old : PermissionRequest
  pub found : first_where (has_id n) s.permission_requests ≡ some old
  pub outcome :
      ((allowed old ≡ false) × (r ≡ old) × (s' ≡ s))
      ⊎ ((allowed old ≡ true)
          × (r ≡ f old)
          × (s'.permission_requests ≡ update_first (has_id n) f s.permission_requests)
          × (s'.permissions ≡ permissions old))

module _ (db_now now : Instant) where
  pub create-Changed :
      (s s' : AccessStore) (u : Uuid) (t : PermissionType) (reason : Option Text)
      (r : PermissionRequest)
      → create_permission_request db_now s u t reason ≡ ok (r, s')
      → ((first_where (is_pending_request_of u t) s.permission_requests ≡ some r) × (s' ≡ s))
        ⊎ ((first_where (is_pending_request_of u t) s.permission_requests ≡ none)
            × (r ≡ new_request db_now s u t reason)
            × (s' ≡ record s { permission_requests = s.permission_requests ++ r ∷ [] }))
  unfolding create_permission_request
  create-Changed s s' u t reason r h =
      elim (Option-cases (first_where (is_pending_request_of u t) s.permission_requests)) [
        | inl fresh ↦ inr (fresh, ground arith, ground arith)
        | inr (p, there) ↦ inl (ground arith)
      ]

  pub approve-Changed :
      (s s' : AccessStore) (n : ℕ) (actor_id : Uuid) (reason : Option Text) (r : PermissionRequest)
      → approve_permission_request db_now now s n actor_id reason ≡ ok (r, s')
      → Changed n is_pending
          (decide approved actor_id reason now)
          (λ old. grant db_now s old.requester_id old.permission_type actor_id reason)
          r
          s
          s'
  unfolding approve_permission_request
  approve-Changed s s' n actor_id reason r h =
      elim (Option-cases (first_where (has_id n) s.permission_requests)) [
        | inl missing ↦ absurd (ground arith)
        | inr (old, e) ↦ record {
          old = old;
          found = e;
          outcome = elim (Bool-cases (is_pending old)) [
            | inl p ↦ inr (p, ground arith, ground arith, ground arith)
            | inr p ↦ inl (p, ground arith, ground arith)
          ];
        }
      ]

  pub deny-Changed :
      (s s' : AccessStore) (n : ℕ) (actor_id : Uuid) (reason : Option Text) (r : PermissionRequest)
      → deny_permission_request now s n actor_id reason ≡ ok (r, s')
      → Changed n is_pending (decide denied actor_id reason now) (λ old. s.permissions) r s s'
  unfolding deny_permission_request
  deny-Changed s s' n actor_id reason r h =
      elim (Option-cases (first_where (has_id n) s.permission_requests)) [
        | inl missing ↦ absurd (ground arith)
        | inr (old, e) ↦ record {
          old = old;
          found = e;
          outcome = elim (Bool-cases (is_pending old)) [
            | inl p ↦ inr (p, ground arith, ground arith, ground arith)
            | inr p ↦ inl (p, ground arith, ground arith)
          ];
        }
      ]

  pub cancel-Changed :
      (s s' : AccessStore) (n : ℕ) (requester_id : Uuid) (r : PermissionRequest)
      → cancel_permission_request s n requester_id ≡ ok (r, s')
      → Changed n (is_own_pending requester_id) cancel (λ old. s.permissions) r s s'
  unfolding cancel_permission_request
  cancel-Changed s s' n requester_id r h =
      elim (Option-cases (first_where (has_id n) s.permission_requests)) [
        | inl missing ↦ absurd (ground arith)
        | inr (old, e) ↦ record {
          old = old;
          found = e;
          outcome = elim (Bool-cases (is_own_pending requester_id old)) [
            | inl p ↦ inr (p, ground arith, ground arith, ground arith)
            | inr p ↦ inl (p, ground arith, ground arith)
          ];
        }
      ]

-- ===== src/Permissions/Agreed.antt =====
-- Each operation on requests, on the same rows in another order.
use mathlib.Core.List.{Permᴰ}
use satoidc.Common.{
  ℕ, ◌≡◌, ◌&&◌, ◌||◌, refl, sym, ◌∙◌, not, ◌==◌, Option, List, ok, raised, inl, inr, arith,
  Bool-cases, Option-cases, Outcome-cases,
}
use satoidc.Common.Rows.{first_where, update_first}
use satoidc.Common.Rows.Reordered.{first_where-reordered, update_first-reordered, append-reordered}
use satoidc.Common.Texts.{Text}
use satoidc.Models.{Uuid, Instant, PermissionType, developer, Permission, PermissionRequest}
use satoidc.Permissions.Store.{
  get_permission_request, AccessStore, permission_eq, has_developer_access, is_grant, is_pending,
  is_pending_request_of, has_id, get_active_permissions_for_user,
}
use satoidc.Permissions.Requests.{
  max_request_id, max_permission_id, new_request, grant, regrant, create_permission_request,
  approve_permission_request, deny_permission_request, cancel_permission_request,
}
use satoidc.Permissions.Unique.{IsValid}
use satoidc.Permissions.Orderless.{
  SameRows, HasKeys, Result, Operation, create, approve, deny, cancel_own, perform,
  get_active_permissions-reordered, has_developer_access-reordered,
}

max_request_id-reordered :
    {rs qs : List PermissionRequest} → Permᴰ rs qs → max_request_id rs ≡ max_request_id qs
unfolding max_request_id
max_request_id-reordered Permᴰ.nil = refl
max_request_id-reordered (Permᴰ.cons e d) = rw (e, max_request_id-reordered d) refl
max_request_id-reordered (Permᴰ.swap e e') = rw (e, e') (ground arith)
max_request_id-reordered (Permᴰ.trans d d') =
    max_request_id-reordered d ∙ max_request_id-reordered d'

max_permission_id-reordered :
    {ps qs : List Permission} → Permᴰ ps qs → max_permission_id ps ≡ max_permission_id qs
unfolding max_permission_id
max_permission_id-reordered Permᴰ.nil = refl
max_permission_id-reordered (Permᴰ.cons e d) = rw (e, max_permission_id-reordered d) refl
max_permission_id-reordered (Permᴰ.swap e e') = rw (e, e') (ground arith)
max_permission_id-reordered (Permᴰ.trans d d') =
    max_permission_id-reordered d ∙ max_permission_id-reordered d'

-- The same is raised, or the same request is returned and the same rows are there.
abbrev pub Agree : Result → Result → Type 0
Agree (raised e) (raised e') = e ≡ e'
Agree (ok (r, s)) (ok (r', t)) = (r ≡ r') × SameRows s t
Agree _ _ = ⊥

module _ (db_now now : Instant) (s t : AccessStore) (same : SameRows s t) (v : IsValid s)
    (keys : HasKeys s) where
  has_access :
      (u : Uuid)
      → has_developer_access (get_active_permissions_for_user db_now t u)
        ≡ has_developer_access (get_active_permissions_for_user db_now s u)
  has_access u =
      sym (has_developer_access-reordered (get_active_permissions-reordered db_now s t u same))

  asked :
      (u : Uuid) (p : PermissionType)
      → first_where (is_pending_request_of u p) t.permission_requests
        ≡ first_where (is_pending_request_of u p) s.permission_requests
  asked u p = sym (first_where-reordered _ same.1 (v.pendings u p))

  renewed :
      (u : Uuid) (p : PermissionType) (reason : Option Text)
      → new_request db_now t u p reason ≡ new_request db_now s u p reason
  unfolding new_request
  renewed u p reason = rw (sym (max_request_id-reordered same.1)) refl

  create-Agree :
      (u : Uuid) (p : PermissionType) (reason : Option Text)
      → Agree
          (create_permission_request db_now s u p reason)
          (create_permission_request db_now t u p reason)
  unfolding create_permission_request
  create-Agree u p reason =
      elim (Bool-cases (
        permission_eq p developer
        && has_developer_access (get_active_permissions_for_user db_now s u))) [
          | inl has ↦ rw (has_access u, has) refl
          | inr without ↦
              elim (Option-cases (first_where (is_pending_request_of u p) s.permission_requests)) [
                | inl fresh ↦
                    rw (has_access u, without, asked u p, fresh, renewed u p reason)
                      (refl, (same.0, append-reordered _ same.1))
                | inr (r, there) ↦ rw (has_access u, without, asked u p, there) (refl, same)
              ]
        ]

  grant-reordered :
      (u actor_id : Uuid) (p : PermissionType) (reason : Option Text)
      → Permᴰ (grant db_now s u p actor_id reason) (grant db_now t u p actor_id reason)
  unfolding grant
  grant-reordered u actor_id p reason =
      let found : first_where (is_grant u p) t.permissions
          ≡ first_where (is_grant u p) s.permissions =
        sym (first_where-reordered _ same.0 (v.grants u p)) in
      elim (Option-cases (first_where (is_grant u p) s.permissions)) [
        | inl fresh ↦
            rw (found, fresh, max_permission_id-reordered same.0) (append-reordered _ same.0)
        | inr (q, there) ↦
            rw (found, there)
              (update_first-reordered _ (regrant actor_id reason) same.0 (v.grants u p))
      ]

  fetched : (n : ℕ) → get_permission_request t n ≡ get_permission_request s n
  unfolding get_permission_request
  fetched n = rw (first_where-reordered (has_id n) same.1 (keys n), get_permission_request) refl

  decided :
      (n : ℕ) (f : PermissionRequest → PermissionRequest)
      → Permᴰ
          (update_first (has_id n) f s.permission_requests)
          (update_first (has_id n) f t.permission_requests)
  decided n f = update_first-reordered (has_id n) f same.1 (keys n)

  approve-Agree :
      (n : ℕ) (actor_id : Uuid) (reason : Option Text)
      → Agree
          (approve_permission_request db_now now s n actor_id reason)
          (approve_permission_request db_now now t n actor_id reason)
  unfolding approve_permission_request
  approve-Agree n actor_id reason = elim (Outcome-cases (get_permission_request s n)) [
    | inl (e, missing) ↦ rw (fetched n, missing) refl
    | inr (old, there) ↦ elim (Bool-cases (is_pending old)) [
      | inl pend ↦
          rw (fetched n, there, pend) (refl, (grant-reordered _ actor_id _ reason, decided n _))
      | inr done ↦ rw (fetched n, there, done) (refl, same)
    ]
  ]

  deny-Agree :
      (n : ℕ) (actor_id : Uuid) (reason : Option Text)
      → Agree
          (deny_permission_request now s n actor_id reason)
          (deny_permission_request now t n actor_id reason)
  unfolding deny_permission_request
  deny-Agree n actor_id reason = elim (Outcome-cases (get_permission_request s n)) [
    | inl (e, missing) ↦ rw (fetched n, missing) refl
    | inr (old, there) ↦ elim (Bool-cases (is_pending old)) [
      | inl pend ↦ rw (fetched n, there, pend) (refl, (same.0, decided n _))
      | inr done ↦ rw (fetched n, there, done) (refl, same)
    ]
  ]

  cancel-Agree :
      (n : ℕ) (requester_id : Uuid)
      → Agree
          (cancel_permission_request s n requester_id)
          (cancel_permission_request t n requester_id)
  unfolding cancel_permission_request
  cancel-Agree n requester_id = elim (Outcome-cases (get_permission_request s n)) [
    | inl (e, missing) ↦ rw (fetched n, missing) refl
    | inr (old, there) ↦
        elim (Bool-cases (not (old.requester_id == requester_id) || not (is_pending old))) [
          | inl refused ↦ rw (fetched n, there, refused) (refl, same)
          | inr own ↦ rw (fetched n, there, own) (refl, (same.0, decided n _))
        ]
  ]

  -- Where each row of a query is the only one that fits, an operation agrees with itself on the reordered tables.
  pub perform-Agree : (o : Operation) → Agree (perform db_now now o s) (perform db_now now o t)
  perform-Agree (create u p reason) = create-Agree u p reason
  perform-Agree (approve n actor_id reason) = approve-Agree n actor_id reason
  perform-Agree (deny n actor_id reason) = deny-Agree n actor_id reason
  perform-Agree (cancel_own n requester_id) = cancel-Agree n requester_id

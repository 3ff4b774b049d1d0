-- ===== src/Permissions/Refined.antt =====
-- The operations on the tables and the abstract view.
use satoidc.Common.{
  ℕ, ◌≡◌, refl, subst, ap, ◌∙◌, Bool, true, false, ◌&&◌, ◌==◌, Option, some, List, [], ◌∷◌, ok, inl,
  inr, arith, Bool-cases,
}
use satoidc.Common.Rows.{first_where}
use satoidc.Common.Rows.Counting.{count_where-first_none}
use satoidc.Common.Texts.{Text}
use satoidc.Models.{Uuid, Instant, PermissionType, PermissionRequest}
use satoidc.Permissions.Store.{
  AccessStore, permission_eq, elem_permission, get_active_permissions_for_user, is_pending,
  is_pending_request_of, has_id,
}
use satoidc.Permissions.Requests.{
  new_request, create_permission_request, approve_permission_request,
}
use satoidc.Permissions.Matching.{permission_eq_sym, permission_eq_sound}
use satoidc.Permissions.Effects.{
  Changed, create-Changed, approve-Changed, deny-Changed, cancel-Changed, is_own_pending,
}
use satoidc.Permissions.Grants.{approve_grants}
use satoidc.Permissions.Unique.{
  IsValid, AccessStep, AccessStep-IsValid, create, approve, deny, cancel_own,
}
use satoidc.Permissions.Abstract.{
  Action, asked, granted, declined, unchanged, is_at, put, act, IsEnabled, act_all, AreEnabled,
  view,
}
use satoidc.Permissions.Asks.{
  Access_ext, pending_at, is_at_refl, count_named, decided_asks, may_kept, added_asks,
}

-- What a step amounts to.
abbrev Refines : AccessStore → AccessStore → Type 0
Refines s s' = (a : Action) × IsEnabled a (view s) × (view s' ≡ act a (view s))

asked_before :
    (n : ℕ) (s : AccessStore) (old : PermissionRequest)
    → first_where (has_id n) s.permission_requests ≡ some old
    → is_pending old ≡ true
    → (view s).asks old.requester_id old.permission_type ≡ true
unfolding view
asked_before n s old found pend = ground (
  arith,
  count_named (has_id n) (is_pending_request_of old.requester_id old.permission_type)
      s.permission_requests old found
      (pending_at old.requester_id old.permission_type old pend
        ∙ is_at_refl old.requester_id old.permission_type),
)

-- A request that is declined, by an admin or by the requester.
declined_lem :
    (n : ℕ) (allowed : PermissionRequest → Bool) (f : PermissionRequest → PermissionRequest)
    (r : PermissionRequest) (s s' : AccessStore)
    → ((x : PermissionRequest) → allowed x ≡ true → is_pending x ≡ true)
    → ((x : PermissionRequest) → is_pending (f x) ≡ false)
    → Changed n allowed f (λ old. s.permissions) r s s'
    → IsValid s
    → Refines s s'
unfolding view
declined_lem n allowed f r s s' pends done c v = elim c.outcome [
  | inl (refused, row, same) ↦ (unchanged, tt, ap view same)
  | inr (held, row, requests, perms) ↦ (
    declined c.old.requester_id c.old.permission_type,
    asked_before n s c.old c.found (pends c.old held),
    Access_ext (view s') (act (declined c.old.requester_id c.old.permission_type) (view s))
        (may_kept s s' perms)
        (λ u t. rw requests (
          decided_asks n f s.permission_requests c.old c.found (pends c.old held) (done c.old)
            (v.pendings c.old.requester_id c.old.permission_type) u t)),
  )
]

module _ (db_now now : Instant) where
  create_lem :
      (s s' : AccessStore) (u : Uuid) (t : PermissionType) (reason : Option Text)
      (r : PermissionRequest)
      → create_permission_request db_now s u t reason ≡ ok (r, s')
      → Refines s s'
  unfolding view
  create_lem s s' u t reason r h = elim (create-Changed db_now now s s' u t reason r h) [
    | inl (found, same) ↦ (unchanged, tt, ap view same)
    | inr (fresh, row, same) ↦ (
      asked u t,
      rw (count_where-first_none (is_pending_request_of u t) s.permission_requests fresh) refl,
      Access_ext (view s') (act (asked u t) (view s)) (may_kept s s' (ap (λ s. s.permissions) same))
          (λ v w. rw same (
            added_asks s.permission_requests r u v t w
              (rw row (unfold new_request in ground (arith, permission_eq_sym t w))))),
    )
  ]

  granted_may :
      (s s' : AccessStore) (old : PermissionRequest)
      → ((at : Instant)
          → elem_permission old.permission_type
              (get_active_permissions_for_user at s' old.requester_id)
            ≡ true)
      → ((at : Instant) (u : Uuid) (t : PermissionType)
          → u == old.requester_id && permission_eq t old.permission_type ≡ false
          → elem_permission t (get_active_permissions_for_user at s' u)
            ≡ elem_permission t (get_active_permissions_for_user at s u))
      → (at : Instant) (u : Uuid) (t : PermissionType)
      → elem_permission t (get_active_permissions_for_user at s' u)
        ≡ put old.requester_id old.permission_type true
            (λ u t. elem_permission t (get_active_permissions_for_user at s u))
            u
            t
  granted_may s s' old held others at u t =
      elim (Bool-cases (is_at old.requester_id old.permission_type u t)) [
        | inl same ↦
            let eu : u ≡ old.requester_id = ground arith in
            let et : t ≡ old.permission_type =
              permission_eq_sound t old.permission_type (ground arith) in
            rw same (rw (eu, et) (held at))
        | inr other ↦ rw other (others at u t other)
      ]

  approve_lem :
      (s s' : AccessStore) (n : ℕ) (actor_id : Uuid) (reason : Option Text) (r : PermissionRequest)
      → IsValid s
      → approve_permission_request db_now now s n actor_id reason ≡ ok (r, s')
      → Refines s s'
  unfolding view
  approve_lem s s' n actor_id reason r v h =
      let c = approve-Changed db_now now s s' n actor_id reason r h in
      elim c.outcome [
        | inl (refused, row, same) ↦ (unchanged, tt, ap view same)
        | inr (pend, row, requests, perms) ↦
            let (_, _, _, held, others) =
              approve_grants db_now now s s' n actor_id reason r h c.old c.found pend in
            (
              granted c.old.requester_id c.old.permission_type,
              asked_before n s c.old c.found pend,
              Access_ext (view s') (act (granted c.old.requester_id c.old.permission_type) (view s))
                  (granted_may s s' c.old held others)
                  (λ u t. rw requests (
                    decided_asks n _ s.permission_requests c.old c.found pend refl
                      (v.pendings c.old.requester_id c.old.permission_type) u t)),
            )
      ]

  -- From tables that satisfy their constraints, each operation on requests that returns does one action that
  -- the abstract view enables, or changes nothing of it.
  pub AccessStep-act : {s s' : AccessStore} → IsValid s → AccessStep db_now now s s' → Refines s s'
  AccessStep-act {s} {s'} v (create u t reason r h) = create_lem s s' u t reason r h
  AccessStep-act {s} {s'} v (approve n actor_id reason r h) =
      approve_lem s s' n actor_id reason r v h
  AccessStep-act {s} {s'} v (deny n actor_id reason r h) =
      declined_lem n is_pending _ r s s' (λ x pend. pend) (λ x. refl)
        (deny-Changed db_now now s s' n actor_id reason r h) v
  AccessStep-act {s} {s'} v (cancel_own n requester_id r h) =
      declined_lem n (is_own_pending requester_id) _ r s s' (λ x own. ground arith) (λ x. refl)
        (cancel-Changed db_now now s s' n requester_id r h) v

-- Operations one after another, each at times of its own.
pub data AccessRun : AccessStore → AccessStore → Type 0 where
  stop : {s : AccessStore} → AccessRun s s
  step_then :
      (db_now now : Instant) {s t u : AccessStore}
      → AccessStep db_now now s t
      → AccessRun t u
      → AccessRun s u

-- Any run of the operations on requests, from tables that satisfy their constraints, is a run of the
-- abstract view: a list of actions, each enabled where it is taken, leads to what the tables say at the end,
-- and the constraints hold there.
pub AccessRun-act_all :
    {s s' : AccessStore}
    → IsValid s
    → AccessRun s s'
    → IsValid s' × (xs : List Action) × AreEnabled xs (view s) × (view s' ≡ act_all xs (view s))
AccessRun-act_all {s} v stop = (v, [], tt, refl)
AccessRun-act_all {s} {s'} v (step_then db_now now step run) =
    let (x, enabled, same) = AccessStep-act db_now now v step in
    let (v', xs, later, rest) = AccessRun-act_all (AccessStep-IsValid db_now now step v) run in
    (v', x ∷ xs, (enabled, subst (AreEnabled xs) same later), rest ∙ ap (act_all xs) same)

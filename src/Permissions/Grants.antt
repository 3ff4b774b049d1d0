-- ===== src/Permissions/Grants.antt =====
-- Who holds a permission after a decision.
use satoidc.Common.{
  ℕ, ◌≡◌, refl, Bool, true, false, ◌&&◌, ◌||◌, Option, List, [], ◌∷◌, ◌++◌, ok, some, arith, inl,
  inr, Option-cases, ◌==◌, map, ap, ◌∙◌,
}
use satoidc.Common.Texts.{Text}
use satoidc.Common.Rows.{first_where, update_first, rows_where}
use satoidc.Models.{Uuid, Instant, PermissionType, approved, Permission, PermissionRequest}
use satoidc.Permissions.Store.{
  AccessStore, is_grant, is_live, is_of_user, is_pending, has_id, elem_permission, permission_eq,
  get_active_permissions_for_user,
}
use satoidc.Permissions.Requests.{
  grant, regrant, new_permission, decide, approve_permission_request,
}
use satoidc.Permissions.Matching.{is_grant_sound, permission_eq_refl, permission_eq_sym}
use satoidc.Permissions.Effects.{approve-Changed}

-- The user holds a live permission of the type.
abbrev pub holds : Instant → Uuid → PermissionType → List Permission → Bool
holds at u t [] = false
holds at u t (p ∷ ps) = (is_grant u t p && is_live at p) || holds at u t ps

elem-rows :
    (at : Instant) (u : Uuid) (t : PermissionType) (ps : List Permission)
    → elem_permission t
        (map (λ p. p.permission_type) (rows_where (λ p. is_of_user u p && is_live at p) ps))
      ≡ holds at u t ps
elem-rows at u t [] = refl
elem-rows at u t (p ∷ ps) =
    ground (arith, elem-rows at u t ps, permission_eq_sym t p.permission_type)

-- The query for the active permissions of a user finds the types that the user holds.
pub elem-get_active_permissions :
    (at : Instant) (s : AccessStore) (u : Uuid) (t : PermissionType)
    → elem_permission t (get_active_permissions_for_user at s u) ≡ holds at u t s.permissions
unfolding get_active_permissions_for_user
elem-get_active_permissions at s u t = elem-rows at u t s.permissions

pub holds-append :
    (at : Instant) (u : Uuid) (t : PermissionType) (ps : List Permission) (p : Permission)
    → holds at u t (ps ++ p ∷ []) ≡ (holds at u t ps || (is_grant u t p && is_live at p))
holds-append at u t [] p = ground arith
holds-append at u t (q ∷ ps) p = ground (arith, holds-append at u t ps p)

-- A row of another user or type may change at will.
holds-update_other :
    (at : Instant) (u v : Uuid) (t w : PermissionType) (f : Permission → Permission)
    (ps : List Permission)
    → ((p : Permission) → is_grant v w p ≡ true → is_grant u t p ≡ false)
    → ((p : Permission) → is_grant u t (f p) ≡ is_grant u t p)
    → holds at u t (update_first (is_grant v w) f ps) ≡ holds at u t ps
holds-update_other at u v t w f [] other keeps = refl
holds-update_other at u v t w f (p ∷ ps) other keeps =
    ground (arith, other p, keeps p, holds-update_other at u v t w f ps other keeps)

holds-update_self :
    (at : Instant) (u : Uuid) (t : PermissionType) (f : Permission → Permission)
    (ps : List Permission) (q : Permission)
    → ((p : Permission) → is_grant u t p ≡ true → is_grant u t (f p) && is_live at (f p) ≡ true)
    → first_where (is_grant u t) ps ≡ some q
    → holds at u t (update_first (is_grant u t) f ps) ≡ true
holds-update_self at u t f [] q live h = cc
holds-update_self at u t f (p ∷ ps) q live h =
    ground (arith, live p, holds-update_self at u t f ps q live)

found_updated :
    (n : ℕ) (f : PermissionRequest → PermissionRequest) (old : PermissionRequest)
    (rs : List PermissionRequest)
    → ((q : PermissionRequest) → (f q).id ≡ q.id)
    → first_where (has_id n) rs ≡ some old
    → first_where (has_id n) (update_first (has_id n) f rs) ≡ some (f old)
found_updated n f old [] kept h = cc
found_updated n f old (q ∷ rs) kept h = ground (arith, kept q, found_updated n f old rs kept)

others_kept :
    (m n : ℕ) (f : PermissionRequest → PermissionRequest) (rs : List PermissionRequest)
    → m == n ≡ false
    → ((q : PermissionRequest) → (f q).id ≡ q.id)
    → first_where (has_id m) (update_first (has_id n) f rs) ≡ first_where (has_id m) rs
others_kept m n f [] other kept = refl
others_kept m n f (q ∷ rs) other kept = ground (arith, kept q, others_kept m n f rs other kept)

module _ (db_now now : Instant) (s s' : AccessStore) (n : ℕ) (actor_id : Uuid)
    (reason : Option Text) (r : PermissionRequest)
    (approved_now : approve_permission_request db_now now s n actor_id reason ≡ ok (r, s')) where
  -- The row that a grant writes or adds is live from then on.
  holds-grant :
      (at : Instant) (u : Uuid) (t : PermissionType)
      → holds at u t (grant db_now s u t actor_id reason) ≡ true
  unfolding grant
  holds-grant at u t = elim (Option-cases (first_where (is_grant u t) s.permissions)) [
    | inl fresh ↦
        rw fresh (rw holds-append (unfold new_permission in ground (arith, permission_eq_refl t)))
    | inr (q, there) ↦ rw there (
        holds-update_self at u t (regrant actor_id reason) s.permissions q (λ p h. ground arith)
          there)
  ]

  -- A grant to one user and type changes what nobody else holds, and no other type.
  holds-grant_other :
      (at : Instant) (u v : Uuid) (t w : PermissionType)
      → u == v && permission_eq t w ≡ false
      → holds at u t (grant db_now s v w actor_id reason) ≡ holds at u t s.permissions
  unfolding grant
  holds-grant_other at u v t w other =
      elim (Option-cases (first_where (is_grant v w) s.permissions)) [
        | inl fresh ↦
            rw fresh
              (rw holds-append (unfold new_permission in ground (arith, permission_eq_sym t w)))
        | inr (q, there) ↦ rw there (
            holds-update_other at u v t w (regrant actor_id reason) s.permissions
              (λ p h.
                let (a, b) = is_grant_sound v w p h in
                rw (a, b) (ground (arith, permission_eq_sym t w)))
              (λ p. refl))
      ]

  -- An approval of a pending request that returns it: the request found under its number in the table afterwards is
  -- the one returned, which is the old one approved by the actor, and what is found under any other number is as
  -- before. The requester holds the requested permission at every time, and what any other user
  -- holds, and what the requester holds of other types, is as it was.
  pub approve_grants :
      (old : PermissionRequest)
      → first_where (has_id n) s.permission_requests ≡ some old
      → is_pending old ≡ true
      → (r ≡ decide approved actor_id reason now old)
        × (first_where (has_id n) s'.permission_requests ≡ some r)
        × ((m : ℕ)
            → m == n ≡ false
            → first_where (has_id m) s'.permission_requests
              ≡ first_where (has_id m) s.permission_requests)
        × ((at : Instant)
            → elem_permission old.permission_type
                (get_active_permissions_for_user at s' old.requester_id)
              ≡ true)
        × ((at : Instant) (u : Uuid) (t : PermissionType)
            → u == old.requester_id && permission_eq t old.permission_type ≡ false
            → elem_permission t (get_active_permissions_for_user at s' u)
              ≡ elem_permission t (get_active_permissions_for_user at s u))
  approve_grants old found pend =
      let c = approve-Changed db_now now s s' n actor_id reason r approved_now in
      let same : c.old ≡ old = cc (c.found) in
      elim c.outcome [
        | inl (refused, row, unchanged) ↦ absurd (cc (ap is_pending same))
        | inr (p, row, requests, perms) ↦ (
          row ∙ ap (decide approved actor_id reason now) same,
          rw (requests, row, same)
              (found_updated n (decide approved actor_id reason now) old s.permission_requests
                (λ q. refl) found),
          (λ m other. rw requests (
              others_kept m n (decide approved actor_id reason now) s.permission_requests other
                (λ q. refl))),
          (λ at.
              rw (elem-get_active_permissions, perms, same)
                (holds-grant at old.requester_id old.permission_type)),
          (λ at u t other. rw elem-get_active_permissions (
              rw elem-get_active_permissions (
                rw (perms, same)
                  (holds-grant_other at u old.requester_id t old.permission_type other)))),
        )
      ]

-- ===== src/Permissions/Developers.antt =====
-- The dashboard's count of users with developer access.
use native.Mathlib.Decide.{ℕ_discrete}
use mathlib.Core.Path.{subst}
use satoidc.Common.{◌≡◌, refl, ◌&&◌, ◌||◌, List, [], ◌∷◌, arith, ◌==◌, map}
use satoidc.Common.Rows.{rows_where}
use satoidc.Models.{Uuid, Instant, Permission}
use satoidc.Permissions.Store.{
  AccessStore, has_developer_access, get_active_permissions_for_user, is_live, is_of_user,
}
use satoidc.Permissions.Metrics.{elem_id, add_distinct, developer_users}

elem_id-add_distinct :
    (u v : Uuid) (us : List Uuid) → elem_id u (add_distinct v us) ≡ (u == v || elem_id u us)
elem_id-add_distinct u v us = elim (ℕ_discrete u v) [
  | yes e ↦ subst (λ w. elem_id u (add_distinct w us) ≡ (u == w || elem_id u us)) e (ground arith)
  | no n ↦ ground arith
]

counted :
    (at : Instant) (u : Uuid) (ps : List Permission)
    → elem_id u (developer_users at ps)
      ≡ has_developer_access
          (map (λ p. p.permission_type) (rows_where (λ p. is_of_user u p && is_live at p) ps))
unfolding developer_users has_developer_access
counted at u [] = refl
counted at u (p ∷ ps) =
    ground (arith, counted at u ps, elem_id-add_distinct u p.user_id (developer_users at ps))

-- A user is among the counted ones exactly when the check on the user's active permissions grants
-- developer access.
pub elem_id-developer_users :
    (at : Instant) (s : AccessStore) (u : Uuid)
    → elem_id u (developer_users at s.permissions)
      ≡ has_developer_access (get_active_permissions_for_user at s u)
unfolding get_active_permissions_for_user
elem_id-developer_users at s u = counted at u s.permissions

-- ===== src/Setup/Granted.antt =====
-- The first root permission, whether it comes from the form or from a wallet.
use satoidc.Common.{
  ◌==◌, ◌≡◌, refl, true, false, Option, none, some, List, [], ◌∷◌, ◌++◌, ok, is_some, Bool-cases,
  Option-cases, inl, inr, arith, subst, sym,
}
use satoidc.Common.Rows.{first_where}
use satoidc.Models.{Uuid, Instant, Token, PermissionType, root, Permission}
use satoidc.Permissions.Store.{
  AccessStore, permission_eq, is_grant, elem_permission, get_active_permissions_for_user,
}
use satoidc.Permissions.Grants.{elem-get_active_permissions, holds-append}
use satoidc.Lnurl.{AuthEvent}
use satoidc.Setup.{exists_root_user, serves_wizard, root_permission, root_for, root_event_handler}

root_appended :
    (p : Permission) (ps : List Permission)
    → p.permission_type ≡ root
    → is_some (first_where (λ p. permission_eq p.permission_type root) (ps ++ p ∷ [])) ≡ true
root_appended p [] h = rw h refl
root_appended p (q ∷ ps) h = ground (arith, root_appended p ps h)

abbrev pub with_root : Instant → Uuid → AccessStore → AccessStore
with_root db_now id access = record access {
  permissions = access.permissions ++ root_permission db_now access.permissions id ∷ [];
}

-- The setup is over, the account holds root at every time, and what others hold is as it was.
pub record IsSetUp (id : Uuid) (access access' : AccessStore) : Type 0 where
  pub over : serves_wizard access' ≡ false
  pub held :
      (at : Instant) → elem_permission root (get_active_permissions_for_user at access' id) ≡ true
  pub others :
      (at : Instant) (u : Uuid) (t : PermissionType)
      → u == id ≡ false
      → elem_permission t (get_active_permissions_for_user at access' u)
        ≡ elem_permission t (get_active_permissions_for_user at access u)

pub with_root-IsSetUp :
    (db_now : Instant) (id : Uuid) (access : AccessStore)
    → IsSetUp id access (with_root db_now id access)
unfolding serves_wizard exists_root_user
with_root-IsSetUp db_now id access = record {
  over =
      rw (root_appended (root_permission db_now access.permissions id) access.permissions refl)
        refl;
  held = λ at. rw (elem-get_active_permissions, holds-append) (ground arith);
  others = λ at u t other.
      rw elem-get_active_permissions
        (rw elem-get_active_permissions (rw holds-append (ground arith)));
}

root_for_lem :
    (db_now : Instant) (o : Option Uuid) (access access' : AccessStore)
    → root_for db_now o access ≡ ok (true, access')
    → (id : Uuid) × (o ≡ some id) × (access' ≡ with_root db_now id access)
root_for_lem db_now none access access' h = cc
root_for_lem db_now (some id) access access' h =
    elim (Option-cases (first_where (is_grant id root) access.permissions)) [
      | inr (p, there) ↦ absurd (ground arith)
      | inl fresh ↦ (id, refl, ground arith)
    ]

-- The wallet's event that ends the setup came for the challenge of the page and names an account: the wizard
-- is not served again, at every time this account holds the root permission, and what any other account holds
-- is as it was.
pub root_event_handler-IsSetUp :
    (db_now : Instant) (k1 : Token) (event : AuthEvent) (access access' : AccessStore)
    → root_event_handler db_now k1 event access ≡ ok (true, access')
    → (id : Uuid) × ((event.k1 == k1) ≡ true)
      × (event.user_id ≡ some id)
      × IsSetUp id access access'
unfolding root_event_handler
root_event_handler-IsSetUp db_now k1 event access access' h = elim (Bool-cases (event.k1 == k1)) [
  | inr other ↦ absurd (ground arith)
  | inl same ↦
      let (id, named, done) = root_for_lem db_now event.user_id access access' (rw same at h) in
      (id, same, named, subst (IsSetUp id access) (sym done) (with_root-IsSetUp db_now id access))
]

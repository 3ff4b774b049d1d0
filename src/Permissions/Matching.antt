-- ===== src/Permissions/Matching.antt =====
-- When the tests on permissions and requests hold.
use satoidc.Common.{◌≡◌, refl, true, arith}
use satoidc.Models.{
  Uuid, PermissionType, root, admin, developer, support, Permission, PermissionRequest,
}
use satoidc.Permissions.Store.{permission_eq, is_grant, is_request_of}

pub permission_eq_sound : (p q : PermissionType) → permission_eq p q ≡ true → p ≡ q
permission_eq_sound root q h = ground arith
permission_eq_sound admin q h = ground arith
permission_eq_sound developer q h = ground arith
permission_eq_sound support q h = ground arith

pub permission_eq_refl : (p : PermissionType) → permission_eq p p ≡ true
permission_eq_refl root = refl
permission_eq_refl admin = refl
permission_eq_refl developer = refl
permission_eq_refl support = refl

pub is_grant_sound :
    (u : Uuid) (t : PermissionType) (p : Permission)
    → is_grant u t p ≡ true
    → (p.user_id ≡ u) × (p.permission_type ≡ t)
is_grant_sound u t p h = ground (arith, permission_eq_sound p.permission_type t)

pub is_request_of_sound :
    (u : Uuid) (t : PermissionType) (r : PermissionRequest)
    → is_request_of u t r ≡ true
    → (r.requester_id ≡ u) × (r.permission_type ≡ t)
is_request_of_sound u t r h = ground (arith, permission_eq_sound r.permission_type t)

pub permission_eq_sym : (p q : PermissionType) → permission_eq p q ≡ permission_eq q p
permission_eq_sym root q = ground arith
permission_eq_sym admin q = ground arith
permission_eq_sym developer q = ground arith
permission_eq_sym support q = ground arith

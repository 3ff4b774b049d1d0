-- ===== src/Security/Pages.antt =====
-- Who is shown a page.
use satoidc.Common.{
  ◌≡◌, refl, true, false, Option, some, List, [], ◌∷◌, ok, arith, inl, inr, ◌⊎◌, ◌↔◌, Bool-cases,
  Option-cases, sym, ◌∙◌,
}
use satoidc.Models.{Uuid, Instant, PermissionType, root}
use satoidc.Permissions.Store.{
  AccessStore, elem_permission, permission_eq, get_active_permissions_for_user,
}
use satoidc.Permissions.Matching.{permission_eq_sound, permission_eq_refl}
use satoidc.Permissions.Grants.{holds, elem-get_active_permissions}
use satoidc.Security.{
  Session, any, is_disjoint, is_authorized, get_active_user_permissions, session_uuid,
  required_permissions, shown, page_security,
}

-- A common element of two lists of permissions.
meets :
    (required user : List PermissionType)
    → is_disjoint required user ≡ false
    → (t : PermissionType) × (elem_permission t required ≡ true) × (elem_permission t user ≡ true)
meets [] user h = cc
meets (p ∷ ps) user h = elim (Bool-cases (elem_permission p user)) [
  | inl has ↦ (p, ground (arith, permission_eq_refl p), has)
  | inr lacks ↦ let (t, required, held) = meets ps user (ground arith) in (t, ground arith, held)
]

not_disjoint :
    (required user : List PermissionType) (t : PermissionType)
    → elem_permission t required ≡ true
    → elem_permission t user ≡ true
    → is_disjoint required user ≡ false
not_disjoint [] user t r u = cc
not_disjoint (p ∷ ps) user t r u = elim (Bool-cases (permission_eq t p)) [
  | inl same ↦ let e = permission_eq_sound t p same in rw (← e) (rw u)
  | inr other ↦ ground (arith, not_disjoint ps user t)
]

-- Both modules put the same query.
pub same_query :
    (db_now : Instant) (s : AccessStore) (u : Uuid)
    → get_active_user_permissions db_now s u ≡ get_active_permissions_for_user db_now s u
unfolding get_active_user_permissions get_active_permissions_for_user
same_query db_now s u = refl

elem-holds :
    (db_now : Instant) (s : AccessStore) (u : Uuid) (t : PermissionType)
    → elem_permission t (get_active_user_permissions db_now s u) ≡ holds db_now u t s.permissions
elem-holds db_now s u t = rw same_query (elem-get_active_permissions db_now s u t)

-- The user holds root or a required permission.
abbrev pub IsAdmitted : Instant → AccessStore → List PermissionType → Uuid → Type 0
IsAdmitted db_now s required u =
    (holds db_now u root s.permissions ≡ true)
    ⊎ ((t : PermissionType) × (elem_permission t required ≡ true)
        × (holds db_now u t s.permissions ≡ true))

module _ (db_now : Instant) (s : AccessStore) (required : List PermissionType) (u : Uuid) where
  is_authorized-IsAdmitted :
      is_authorized (get_active_user_permissions db_now s u) required any ≡ ok true
      → IsAdmitted db_now s required u
  unfolding is_authorized
  is_authorized-IsAdmitted h = elim (Bool-cases (holds db_now u root s.permissions)) [
    | inl is_root ↦ inl is_root
    | inr not_root ↦
        let (t, r, held) =
          meets required (get_active_user_permissions db_now s u)
            (ground (arith, elem-holds db_now s u root)) in
        inr (t, r, sym (elem-holds db_now s u t) ∙ held)
  ]

  IsAdmitted-is_authorized :
      IsAdmitted db_now s required u
      → is_authorized (get_active_user_permissions db_now s u) required any ≡ ok true
  unfolding is_authorized
  IsAdmitted-is_authorized (inl is_root) = ground (arith, elem-holds db_now s u root)
  IsAdmitted-is_authorized (inr (t, r, held)) = ground (
    arith,
    not_disjoint required (get_active_user_permissions db_now s u) t r
        (elem-holds db_now s u t ∙ held),
  )

module _ {A : Type 0} (db_now : Instant) (s : AccessStore) (session : Session)
    (permissions : Option (List PermissionType)) (page : A) where
  shown-IsAdmitted :
      page_security db_now s session permissions any page ≡ ok (shown page)
      → (u : Uuid) × (session_uuid session.user_id ≡ some u)
        × IsAdmitted db_now s (required_permissions permissions) u
  unfolding page_security
  shown-IsAdmitted h = elim (Option-cases (session_uuid session.user_id)) [
    | inl nobody ↦ absurd (ground arith)
    | inr (u, e) ↦ (
      u,
      e,
      is_authorized-IsAdmitted db_now s (required_permissions permissions) u (ground arith),
    )
  ]

  -- A protected page is shown exactly to a session whose user id is that of a user who holds, at the
  -- time of the request, the root permission or one of the required ones.
  pub page_security-shown :
      (page_security db_now s session permissions any page ≡ ok (shown page)) ↔ (
        (u : Uuid) × (session_uuid session.user_id ≡ some u)
        × IsAdmitted db_now s (required_permissions permissions) u)
  unfolding page_security
  page_security-shown = (
    shown-IsAdmitted,
    λ (u, e, admitted).
        ground
          (arith, IsAdmitted-is_authorized db_now s (required_permissions permissions) u admitted),
  )

-- ===== src/Permissions/Asks.antt =====
-- What an operation does to the questions and the permissions that the tables hold.
use satoidc.Common.{
  ℕ, ◌≡◌, ◌≤◌, ◌+◌, refl, ◌∙◌, Bool, true, false, not, ◌==◌, some, List, [], ◌∷◌, ◌++◌, inl, inr,
  arith, Bool-cases,
}
use satoidc.Common.Rows.{first_where, count_where, update_first}
use satoidc.Common.Rows.Counting.{count_where-append}
use satoidc.Models.{Uuid, Instant, PermissionType, PermissionRequest}
use satoidc.Permissions.Store.{
  AccessStore, elem_permission, get_active_permissions_for_user, is_pending, is_pending_request_of,
  has_id,
}
use satoidc.Permissions.Matching.{permission_eq_refl, permission_eq_sym, permission_eq_sound}
use satoidc.Permissions.Abstract.{Access, is_at, put}

-- Two views that agree everywhere are one.
pub Access_ext :
    (a b : Access)
    → ((at : Instant) (u : Uuid) (t : PermissionType) → a.may at u t ≡ b.may at u t)
    → ((u : Uuid) (t : PermissionType) → a.asks u t ≡ b.asks u t)
    → a ≡ b
Access_ext a b may asks = λ i. record { may = λ at u t. may at u t i; asks = λ u t. asks u t i }

module _ {A : Type 0} (p q : A → Bool) (f : A → A) where
  count_found :
      (xs : List A) (a : A)
      → first_where p xs ≡ some a
      → q a ≡ true
      → q (f a) ≡ false
      → count_where q (update_first p f xs) + 1 ≡ count_where q xs
  count_found [] a h before after = cc
  count_found (x ∷ xs) a h before after = elim (Bool-cases (p x)) [
    | inl is ↦ let same : x ≡ a = ground arith in rw (is, same, before, after) (omega arith)
    | inr other ↦ rw other (omega (arith, count_found xs a (ground arith) before after))
  ]

  count_other :
      (xs : List A) (a : A)
      → first_where p xs ≡ some a
      → q (f a) ≡ q a
      → count_where q (update_first p f xs) ≡ count_where q xs
  count_other [] a h same = cc
  count_other (x ∷ xs) a h same = elim (Bool-cases (p x)) [
    | inl is ↦ let e : x ≡ a = ground arith in rw (is, e, same) refl
    | inr other ↦ rw other (omega (arith, count_other xs a (ground arith) same))
  ]

pub count_named :
    {A : Type 0} (p q : A → Bool) (xs : List A) (a : A)
    → first_where p xs ≡ some a
    → q a ≡ true
    → 1 ≤ count_where q xs
count_named p q [] a h held = cc
count_named p q (x ∷ xs) a h held = elim (Bool-cases (p x)) [
  | inl is ↦ let e : x ≡ a = ground arith in rw (e, held) (omega arith)
  | inr other ↦ omega (arith, count_named p q xs a (ground arith) held)
]

-- Whether a pending request of the user and the type is another's.
pub pending_at :
    (u : Uuid) (t : PermissionType) (r : PermissionRequest)
    → is_pending r ≡ true
    → is_pending_request_of u t r ≡ is_at r.requester_id r.permission_type u t
pending_at u t r h = ground (arith, permission_eq_sym t r.permission_type)

pub is_at_refl : (u : Uuid) (t : PermissionType) → is_at u t u t ≡ true
is_at_refl u t = ground (arith, permission_eq_refl t)

-- The questions after a pending request has been decided.
pub decided_asks :
    (n : ℕ) (f : PermissionRequest → PermissionRequest) (rows : List PermissionRequest)
    (old : PermissionRequest)
    → first_where (has_id n) rows ≡ some old
    → is_pending old ≡ true
    → is_pending (f old) ≡ false
    → count_where (is_pending_request_of old.requester_id old.permission_type) rows ≤ 1
    → (u : Uuid) (t : PermissionType)
    → not (count_where (is_pending_request_of u t) (update_first (has_id n) f rows) == 0)
      ≡ put old.requester_id old.permission_type false
          (λ u t. not (count_where (is_pending_request_of u t) rows == 0))
          u
          t
decided_asks n f rows old found pend done le_one u t =
    elim (Bool-cases (is_at old.requester_id old.permission_type u t)) [
      | inl same ↦
          let eu : u ≡ old.requester_id = ground arith in
          let et : t ≡ old.permission_type =
            permission_eq_sound t old.permission_type (ground arith) in
          rw same (
            rw (eu, et)
              (ground (
                arith,
                le_one,
                count_found (has_id n) (is_pending_request_of old.requester_id old.permission_type)
                    f rows old found
                    (pending_at old.requester_id old.permission_type old pend
                      ∙ is_at_refl old.requester_id old.permission_type)
                    (ground (arith, done)),
              )))
      | inr other ↦ rw other (
          rw
            (count_other (has_id n) (is_pending_request_of u t) f rows old found
              (ground (arith, done, pending_at u t old pend)))
            refl)
    ]

pub may_kept :
    (s s' : AccessStore)
    → s'.permissions ≡ s.permissions
    → (at : Instant) (u : Uuid) (t : PermissionType)
    → elem_permission t (get_active_permissions_for_user at s' u)
      ≡ elem_permission t (get_active_permissions_for_user at s u)
unfolding get_active_permissions_for_user
may_kept s s' same at u t = rw same refl

pub added_asks :
    (rows : List PermissionRequest) (r : PermissionRequest) (u v : Uuid) (t w : PermissionType)
    → is_pending_request_of v w r ≡ is_at u t v w
    → not (count_where (is_pending_request_of v w) (rows ++ r ∷ []) == 0)
      ≡ put u t true (λ u t. not (count_where (is_pending_request_of u t) rows == 0)) v w
added_asks rows r u v t w h = rw count_where-append (ground (arith, h))

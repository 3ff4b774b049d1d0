-- ===== src/Permissions/Abstract.antt =====
-- What the permissions of satoidc/satoidc/auth/permissions.py promise, without tables, rows and numbers: who
-- may do what at which time, and who is asking for what.
use satoidc.Common.{◌≡◌, Bool, true, false, not, ◌&&◌, ◌==◌, List, [], ◌∷◌, if◌then◌else◌}
use satoidc.Common.Rows.{count_where}
use satoidc.Models.{Uuid, Instant, PermissionType}
use satoidc.Permissions.Store.{
  AccessStore, permission_eq, elem_permission, get_active_permissions_for_user,
  is_pending_request_of,
}

pub record Access : Type 0 where
  pub may : Instant → Uuid → PermissionType → Bool
  pub asks : Uuid → PermissionType → Bool

pub data Action : Type 0 where
  asked granted declined : Uuid → PermissionType → Action
  unchanged : Action

abbrev pub is_at : Uuid → PermissionType → Uuid → PermissionType → Bool
is_at u t v w = v == u && permission_eq w t

abbrev pub put :
    Uuid → PermissionType → Bool → (Uuid → PermissionType → Bool) → Uuid → PermissionType → Bool
put u t b f v w = if is_at u t v w then b else f v w

-- A grant answers the question, and holds at every time; a question that is declined is gone.
abbrev pub act : Action → Access → Access
act (asked u t) a = record a { asks = put u t true a.asks }
act (granted u t) a = record { may = λ at. put u t true (a.may at); asks = put u t false a.asks }
act (declined u t) a = record a { asks = put u t false a.asks }
act unchanged a = a

-- Only what has been asked is granted or declined.
abbrev pub IsEnabled : Action → Access → Type 0
IsEnabled (asked u t) a = a.asks u t ≡ false
IsEnabled (granted u t) a = a.asks u t ≡ true
IsEnabled (declined u t) a = a.asks u t ≡ true
IsEnabled unchanged a = Unit

abbrev pub act_all : List Action → Access → Access
act_all [] a = a
act_all (x ∷ xs) a = act_all xs (act x a)

abbrev pub AreEnabled : List Action → Access → Type 0
AreEnabled [] a = Unit
AreEnabled (x ∷ xs) a = IsEnabled x a × AreEnabled xs (act x a)

-- What the tables say.
unfoldable pub view : AccessStore → Access
view s = record {
  may = λ at u t. elem_permission t (get_active_permissions_for_user at s u);
  asks = λ u t. not (count_where (is_pending_request_of u t) s.permission_requests == 0);
}

-- ===== src/Security.antt =====
-- satoidc/satoidc/auth/security.py: who may see a page. Password hashing is pwdlib's and is a
-- parameter where it is used. Permissions stand for their string values, which differ.
pub mod Pages
use satoidc.Common.{
  Bool, true, false, not, ◌||◌, ◌&&◌, Option, none, some, List, [], ◌∷◌, Outcome, ok, raised, ◌>>=◌,
  if◌then◌else◌, map,
}
use satoidc.Common.Texts.{Text, is_empty}
use satoidc.Common.Rows.{rows_where}
use satoidc.Common.Uuids.{parse_uuid}
use satoidc.Models.{Uuid, Instant, Token, PermissionType, root, Permission}
use satoidc.Permissions.Store.{AccessStore, elem_permission, is_live, is_of_user}

-- The signed session cookie of a browser.
pub record Session : Type 0 where
  pub user_id : Option Text
  pub login_nonce : Option Token
  pub csrf_token : Option Token

pub data PermissionMode : Type 0 where
  all any other_mode : PermissionMode

pub data SecurityError : Type 0 where
  invalid_permission_mode : SecurityError

-- `required.issubset(user)`
abbrev pub is_subset : List PermissionType → List PermissionType → Bool
is_subset [] user = true
is_subset (p ∷ ps) user = elem_permission p user && is_subset ps user

-- `required.isdisjoint(user)`
abbrev pub is_disjoint : List PermissionType → List PermissionType → Bool
is_disjoint [] user = true
is_disjoint (p ∷ ps) user = not (elem_permission p user) && is_disjoint ps user

abbrev by_mode :
    PermissionMode → List PermissionType → List PermissionType → Outcome SecurityError Bool
by_mode all required user = ok (is_subset required user)
by_mode any required user = ok (not (is_disjoint required user))
by_mode other_mode required user = raised invalid_permission_mode

unfoldable pub is_authorized :
    List PermissionType → List PermissionType → PermissionMode → Outcome SecurityError Bool
is_authorized user required mode =
    if elem_permission root user then ok true else by_mode mode required user

unfoldable pub get_active_user_permissions : Instant → AccessStore → Uuid → List PermissionType
get_active_user_permissions db_now s user_id =
    map (λ p. p.permission_type)
      (rows_where (λ p. is_of_user user_id p && is_live db_now p) s.permissions)

pub data PageRedirect : Type 0 where
  to_login to_forbidden : PageRedirect

-- The session's user: an absent or empty `user_id`, and one that is no UUID, is nobody.
abbrev pub session_uuid : Option Text → Option Uuid
session_uuid none = none
session_uuid (some text) = if is_empty text then none else parse_uuid text

abbrev redirect_unless : Bool → Option PageRedirect
redirect_unless true = none
redirect_unless false = some to_forbidden

-- `None` lets the page be shown.
unfoldable pub authorize_page_request :
    Instant
    → AccessStore
    → Session
    → List PermissionType
    → PermissionMode
    → Outcome SecurityError (Option PageRedirect)
unfolding is_authorized get_active_user_permissions
authorize_page_request db_now s session required mode = elim (session_uuid session.user_id) [
  | none ↦ ok (some to_login)
  | some user ↦ do
    allowed ← is_authorized (get_active_user_permissions db_now s user) required mode
    ok (redirect_unless allowed)
]

-- `permissions or [PermissionsEnum.ROOT]`
abbrev pub required_permissions : Option (List PermissionType) → List PermissionType
required_permissions none = root ∷ []
required_permissions (some []) = root ∷ []
required_permissions (some (p ∷ ps)) = p ∷ ps

-- What the decorated page function returns: a redirect, or the page's own result.
pub data PageResult (A : Type 0) : Type 0 where
  redirected : PageRedirect → PageResult A
  shown : A → PageResult A

unfoldable pub page_security :
    {A : Type 0}
    → Instant
    → AccessStore
    → Session
    → Option (List PermissionType)
    → PermissionMode
    → A
    → Outcome SecurityError (PageResult A)
unfolding authorize_page_request
page_security db_now s session permissions mode page = do
  redirect ← authorize_page_request db_now s session (required_permissions permissions) mode
  elim redirect [ none ↦ ok (shown page) | some to ↦ ok (redirected to) ]

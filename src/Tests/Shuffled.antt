-- ===== src/Tests/Shuffled.antt =====
-- The tables of permissions with their rows in two orders.
use mathlib.Core.Quot.{Quot}
use mathlib.Core.List.{Permᴰ}
use satoidc.Common.{◌≡◌, refl, true, none, List, [], ◌∷◌, arith}
use satoidc.Models.{Instant, Permission, PermissionRequest, support, developer, admin}
use satoidc.Permissions.Store.{AccessStore}
use satoidc.Permissions.Unique.{IsValid}
use satoidc.Permissions.Abstract.{view}
use satoidc.Permissions.Orderless.{
  Operation, create, approve, deny, cancel_own, SameRows, Tables, HasKeys, perform_all,
}
use satoidc.Permissions.Reordered.{perform_all-reordered}
use satoidc.Tests.Data.{alice_id, root_permission, request}

abbrev disabled_permission : Permission
disabled_permission = record root_permission {
  id = 2;
  user_id = 2;
  permission_type = developer;
  disabled = true;
}

abbrev support_request : PermissionRequest
support_request = record request { id = 2; permission_type = support }

abbrev tables : AccessStore
tables = record {
  permissions = root_permission ∷ disabled_permission ∷ [];
  permission_requests = request ∷ support_request ∷ [];
}

abbrev shuffled : AccessStore
shuffled = record {
  permissions = disabled_permission ∷ root_permission ∷ [];
  permission_requests = support_request ∷ request ∷ [];
}

abbrev calls : List (Instant × Instant × Operation)
calls =
    (20, 20, approve 1 alice_id none)
    ∷ (21, 21, create 2 developer none)
    ∷ (22, 22, create 2 admin none)
    ∷ (23, 23, deny 2 alice_id none)
    ∷ (24, 24, approve 7 alice_id none)
    ∷ (25, 25, cancel_own 3 2)
    ∷ []

tables-IsValid : IsValid tables
tables-IsValid = record { grants = λ u t. ground arith; pendings = λ u t. ground arith }

tables-HasKeys : HasKeys tables
tables-HasKeys n = ground arith

same_rows : SameRows tables shuffled
same_rows = (Permᴰ.swap refl refl, Permᴰ.swap refl refl)

perform_all-reordered_example :
    ((perform_all calls tables).0 ≡ (perform_all calls shuffled).0)
    × (◌≡◌ {A = Tables}
        (Quot.mk (perform_all calls tables).1)
        (Quot.mk (perform_all calls shuffled).1))
    × (view (perform_all calls tables).1 ≡ view (perform_all calls shuffled).1)
perform_all-reordered_example =
    perform_all-reordered calls tables shuffled tables-IsValid tables-HasKeys same_rows

-- ===== src/Home.antt =====
-- `index` of satoidc/satoidc/routes/home.py: what the first page offers to the session. The relation `permissions`
-- of a user is read with the same criteria as the permission query. An icon is left out.
pub mod Offered
use satoidc.Common.{Bool, true, false, ◌||◌, Option, none, some, List, [], ◌∷◌, ◌++◌, if◌then◌else◌}
use satoidc.Common.Rows.{first_where}
use satoidc.Common.Texts.{Text, codes, is_empty}
use satoidc.Models.{Uuid, Instant, PermissionType, root, admin, User}
use satoidc.Security.{Session, session_uuid}
use satoidc.Lnurl.{is_user}
use satoidc.Permissions.Store.{
  AccessStore, elem_permission, has_developer_access, get_active_permissions_for_user,
}
use satoidc.Dashboard.{or_else}

-- A label and a target.
abbrev pub NavItem : Type 0
NavItem = Text × Text

pub record HomePage : Type 0 where
  pub nav_items : List NavItem
  pub user_label : Option Text
  pub account_items : Option (List NavItem)
  pub actions : List NavItem

abbrev pub profile_item : NavItem
profile_item = (codes "Profile", codes "/profile")

abbrev pub developer_item : NavItem
developer_item = (codes "Developer Dashboard", codes "/dashboard/developer")

abbrev pub admin_item : NavItem
admin_item = (codes "Admin Dashboard", codes "/dashboard/admin")

abbrev pub logout_item : NavItem
logout_item = (codes "Logout", codes "/logout")

-- `[item] if test else []`
abbrev pub item_if : Bool → NavItem → List NavItem
item_if true item = item ∷ []
item_if false item = []

unfoldable pub home_actions : Bool → Bool → List NavItem
home_actions is_signed_in can_develop =
    if is_signed_in
    then (codes "Open profile", codes "/profile") ∷ item_if can_develop developer_item
      ++ logout_item ∷ []
    else (codes "Get Started", codes "/register") ∷ (codes "Sign in", codes "/login") ∷ []

-- The session's account and its permissions, none where nobody is signed in.
abbrev pub signed_in : Instant → List User → AccessStore → Option Uuid → Option User
signed_in db_now users s none = none
signed_in db_now users s (some id) = first_where (is_user id) users

abbrev pub permissions_of : Instant → AccessStore → Option User → List PermissionType
permissions_of db_now s none = []
permissions_of db_now s (some u) = get_active_permissions_for_user db_now s u.id

-- A set of permissions meets the admin set.
abbrev pub can_admin : List PermissionType → Bool
can_admin permissions = elem_permission admin permissions || elem_permission root permissions

abbrev pub github_item : NavItem
github_item = (codes "GitHub", codes "https://github.com/Sats-Lottu/satoidc")

unfoldable pub home_page : Option User → List PermissionType → HomePage
unfolding home_actions
home_page none permissions = record {
  nav_items =
      github_item ∷ (codes "Login", codes "/login") ∷ (codes "Register", codes "/register") ∷ [];
  user_label = none;
  account_items = none;
  actions = home_actions false (has_developer_access permissions);
}
home_page (some u) permissions = record {
  nav_items = github_item ∷ [];
  user_label = some (or_else (some u.nickname) (or_else u.login (codes "Account")));
  account_items = some (
      profile_item ∷ item_if (has_developer_access permissions) developer_item
      ++ item_if (can_admin permissions) admin_item
      ++ logout_item ∷ []);
  actions = home_actions true (has_developer_access permissions);
}

unfoldable pub index : Instant → List User → AccessStore → Session → HomePage
index db_now users s session =
    let user = signed_in db_now users s (session_uuid session.user_id) in
    home_page user (permissions_of db_now s user)

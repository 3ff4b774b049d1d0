-- ===== src/Profile/View.antt =====
-- What the page of satoidc/satoidc/routes/profile.py shows of an account. The text of a time and of a key are
-- parameters; headings, icons and explanations are left out, but for what depends on the account.
use satoidc.Common.{Bool, true, false, not, Option, none, some, List, [], ◌∷◌, ◌++◌, if◌then◌else◌}
use satoidc.Common.Texts.{Text, codes}
use satoidc.Common.Uuids.{uuid_text}
use satoidc.Models.{
  Instant, Token, PermissionType, developer, RequestStatus, pending, approved, denied, cancelled,
  superseded, User, PermissionRequest,
}
use satoidc.Permissions.Store.{
  AccessStore, has_developer_access, get_active_permissions_for_user, get_latest_permission_request,
}
use satoidc.Home.{can_admin}
use satoidc.Dashboard.{or_else}
use satoidc.Profile.{has_password}

pub data Button : Type 0 where
  unlink_wallet relink_wallet link_wallet : Button
  go_to_developer_dashboard go_to_admin_dashboard request_again request_developer_permissions :
      Button

-- A text or a button of the section on developer access
pub data SectionItem : Type 0 where
  said : Text → SectionItem
  button : Button → SectionItem

-- A key is a text of a positive length.
abbrev pub has_wallet : User → Bool
has_wallet u = elim u.lnurl_pubkey [ none ↦ false | some k ↦ true ]

abbrev pub status_text : RequestStatus → Text
status_text pending = codes "pending"
status_text approved = codes "approved"
status_text denied = codes "denied"
status_text cancelled = codes "cancelled"
status_text superseded = codes "superseded"

abbrev pub items_if : Bool → List SectionItem → List SectionItem
items_if true items = items
items_if false items = []

-- What depends on the user's latest request for developer access.
abbrev pub request_items : Option RequestStatus → List SectionItem
request_items none = button request_developer_permissions ∷ []
request_items (some pending) =
    said (codes "Your developer access request is pending admin review.") ∷ []
request_items (some denied) =
    said (
      codes
        "Your last developer access request was denied. You can submit a new request with updated context.")
    ∷ button request_again
    ∷ []
request_items (some approved) =
    said (codes "Latest request status: " ++ status_text approved ++ codes ".") ∷ []
request_items (some cancelled) =
    said (codes "Latest request status: " ++ status_text cancelled ++ codes ".") ∷ []
request_items (some superseded) =
    said (codes "Latest request status: " ++ status_text superseded ++ codes ".") ∷ []

abbrev pub status_of : Option PermissionRequest → Option RequestStatus
status_of none = none
status_of (some r) = some r.status

unfoldable pub developer_section : List PermissionType → Option PermissionRequest → List SectionItem
developer_section permissions latest =
    items_if (has_developer_access permissions) (
      said (codes "Your account already has developer permissions.")
      ∷ button go_to_developer_dashboard
      ∷ [])
    ++ items_if (can_admin permissions) (
        said (codes "Your account has admin permissions, which include developer access.")
        ∷ button go_to_admin_dashboard
        ∷ [])
    ++ items_if (not (has_developer_access permissions)) (
        said (codes "Request access to developer features, APIs and application registration.")
        ∷ request_items (status_of latest))

pub record ProfileView : Type 0 where
  pub title : Text
  pub subtitle : Text
  pub wallet_chip : Text
  pub permission_chips : List PermissionType
  pub nickname : Text
  pub email : Text
  pub pubkey : Text
  pub wallet_buttons : List Button
  pub subject_id : Text
  pub login : Text
  pub password_state : Text
  pub wallet_state : Text
  pub developer_state : Text
  pub created : Text
  pub developer_access : List SectionItem

module _ (time_text : Instant → Text) (key_text : Token → Text) where
  abbrev pub pubkey_text : Option Token → Text
  pubkey_text none = codes "No wallet linked"
  pubkey_text (some k) = key_text k

  unfoldable pub profile : Instant → AccessStore → User → ProfileView
  unfolding developer_section
  profile db_now s user =
      let permissions = get_active_permissions_for_user db_now s user.id in
      record {
        title = or_else (some user.nickname) (codes "Unnamed User");
        subtitle = or_else user.email (codes "No email linked");
        wallet_chip = if has_wallet user then codes "Wallet linked" else codes "No wallet";
        permission_chips = permissions;
        nickname = or_else (some user.nickname) (codes "Not set");
        email = or_else user.email (codes "No email linked");
        pubkey = pubkey_text user.lnurl_pubkey;
        wallet_buttons =
            if has_wallet user then unlink_wallet ∷ relink_wallet ∷ [] else link_wallet ∷ [];
        subject_id = uuid_text user.id;
        login = or_else user.login (codes "-");
        password_state = if has_password user then codes "Configured" else codes "Not configured";
        wallet_state = if has_wallet user then codes "Linked" else codes "Not linked";
        developer_state =
            if has_developer_access permissions then codes "Enabled" else codes "Not enabled";
        created = time_text user.created_at;
        developer_access =
            developer_section permissions (get_latest_permission_request s user.id developer);
      }

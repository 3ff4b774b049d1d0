-- ===== src/Profile/Offered.antt =====
-- Who is offered to ask for developer access.
use satoidc.Common.{
  ◌≡◌, refl, Bool, true, false, not, ◌||◌, Option, none, some, List, [], ◌∷◌, ◌++◌, ok,
}
use satoidc.Common.Texts.{Text}
use satoidc.Common.Rows.{first_where}
use satoidc.Models.{
  Instant, Token, developer, RequestStatus, pending, approved, denied, cancelled, superseded, User,
}
use satoidc.Permissions.Store.{
  AccessStore, has_developer_access, get_active_permissions_for_user, get_latest_permission_request,
  is_pending_request_of,
}
use satoidc.Permissions.Requests.{create_permission_request, new_request}
use satoidc.Profile.{request_developer_access}
use satoidc.Permissions.Events.{event_of, action_created}
use satoidc.Profile.View.{
  SectionItem, said, button, go_to_developer_dashboard, go_to_admin_dashboard, request_again,
  request_developer_permissions, items_if, request_items, status_of, developer_section, profile,
}

abbrev pub is_request_button : SectionItem → Bool
is_request_button (button request_again) = true
is_request_button (button request_developer_permissions) = true
is_request_button _ = false

abbrev pub offers_request : List SectionItem → Bool
offers_request [] = false
offers_request (i ∷ items) = is_request_button i || offers_request items

-- There is no request, or the latest one has been denied.
abbrev pub is_open_to_request : Option RequestStatus → Bool
is_open_to_request none = true
is_open_to_request (some denied) = true
is_open_to_request (some _) = false

section_lem :
    (access is_admin : Bool) (latest : Option RequestStatus) (a b : Text) (c : Text)
    → access ≡ false
    → offers_request (
        items_if access (said a ∷ button go_to_developer_dashboard ∷ [])
        ++ items_if is_admin (said b ∷ button go_to_admin_dashboard ∷ [])
        ++ items_if (not access) (said c ∷ request_items latest))
      ≡ is_open_to_request latest
section_lem true is_admin latest a b c h = cc
section_lem false true none a b c h = refl
section_lem false true (some pending) a b c h = refl
section_lem false true (some approved) a b c h = refl
section_lem false true (some denied) a b c h = refl
section_lem false true (some cancelled) a b c h = refl
section_lem false true (some superseded) a b c h = refl
section_lem false false none a b c h = refl
section_lem false false (some pending) a b c h = refl
section_lem false false (some approved) a b c h = refl
section_lem false false (some denied) a b c h = refl
section_lem false false (some cancelled) a b c h = refl
section_lem false false (some superseded) a b c h = refl

-- For an account without developer access and without a pending request, the handler behind the buttons makes
-- a new pending request whatever came before, while the page shows one of the buttons only if there has been
-- no request or the latest was denied: not after an approval that is disabled or expired by now.
pub profile-request_developer_access :
    (time_text : Instant → Text) (key_text : Token → Text) (db_now : Instant) (s : AccessStore)
    (user : User) (reason : Option Text)
    → has_developer_access (get_active_permissions_for_user db_now s user.id) ≡ false
    → first_where (is_pending_request_of user.id developer) s.permission_requests ≡ none
    → (request_developer_access db_now user reason s
        ≡ ok (
          event_of action_created (new_request db_now s user.id developer reason),
          record s {
            permission_requests =
                s.permission_requests ++ new_request db_now s user.id developer reason ∷ [];
          },
        ))
      × (offers_request (profile time_text key_text db_now s user).developer_access
          ≡ is_open_to_request (status_of (get_latest_permission_request s user.id developer)))
unfolding request_developer_access create_permission_request profile developer_section
profile-request_developer_access time_text key_text db_now s user reason no_access no_pending = (
  rw (no_access, no_pending) refl,
  section_lem _ _ (status_of (get_latest_permission_request s user.id developer)) _ _ _ no_access,
)

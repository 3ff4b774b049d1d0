-- ===== src/Home/Offered.antt =====
-- The dashboards that the first page offers.
use satoidc.Common.{
  ◌≡◌, refl, Bool, true, false, ◌||◌, Option, none, some, List, [], ◌∷◌, ◌++◌, ok, if◌then◌else◌,
  arith,
}
use satoidc.Common.Rows.{first_where}
use satoidc.Common.Rows.Every.{first_where_sound}
use satoidc.Common.Texts.{Text, codes, text_eq}
use satoidc.Models.{Uuid, Instant, PermissionType, root, admin, developer, support, User}
use satoidc.Security.{
  Session, any, session_uuid, shown, redirected, to_forbidden, is_authorized,
  get_active_user_permissions, page_security,
}
use satoidc.Security.Pages.{same_query}
use satoidc.Lnurl.{is_user}
use satoidc.Permissions.Store.{
  AccessStore, elem_permission, has_developer_access, get_active_permissions_for_user,
}
use satoidc.Home.{NavItem, can_admin, home_page, item_if, developer_item, admin_item, index}

-- An item leads to the target.
abbrev pub offers : Text → Option (List NavItem) → Bool
offers target none = false
offers target (some []) = false
offers target (some ((label, to) ∷ items)) = text_eq target to || offers target (some items)

access_lem :
    (ps : List PermissionType)
    → has_developer_access ps
      ≡ (elem_permission root ps || (elem_permission developer ps || elem_permission admin ps))
unfolding has_developer_access
access_lem [] = refl
access_lem (root ∷ ps) = refl
access_lem (admin ∷ ps) = ground (arith, access_lem ps)
access_lem (developer ∷ ps) = ground (arith, access_lem ps)
access_lem (support ∷ ps) = ground (arith, access_lem ps)

developer_offered :
    (u : User) (ps : List PermissionType)
    → offers (codes "/dashboard/developer") (home_page (some u) ps).account_items
      ≡ has_developer_access ps
unfolding home_page
developer_offered u ps = tests (has_developer_access ps) (can_admin ps)
  where
    tests :
        (d a : Bool)
        → offers (codes "/dashboard/developer") (
            some (
              (codes "Profile", codes "/profile") ∷ item_if d developer_item
              ++ item_if a admin_item
              ++ (codes "Logout", codes "/logout") ∷ []))
          ≡ d
    tests true true = refl
    tests true false = refl
    tests false true = refl
    tests false false = refl

admin_offered :
    (u : User) (ps : List PermissionType)
    → offers (codes "/dashboard/admin") (home_page (some u) ps).account_items ≡ can_admin ps
unfolding home_page
admin_offered u ps = tests (has_developer_access ps) (can_admin ps)
  where
    tests :
        (d a : Bool)
        → offers (codes "/dashboard/admin") (
            some (
              (codes "Profile", codes "/profile") ∷ item_if d developer_item
              ++ item_if a admin_item
              ++ (codes "Logout", codes "/logout") ∷ []))
          ≡ a
    tests true true = refl
    tests true false = refl
    tests false true = refl
    tests false false = refl

module _ {A : Type 0} (db_now : Instant) (s : AccessStore) (session : Session) (id : Uuid)
    (page : A) (is_session : session_uuid session.user_id ≡ some id) where
  abbrev Guard : List PermissionType → Bool → Type 0
  Guard required b =
      page_security db_now s session (some required) any page
      ≡ ok (if b then shown page else redirected to_forbidden)

  guard_lem :
      (required : List PermissionType) (b : Bool)
      → is_authorized (get_active_user_permissions db_now s id) required any ≡ ok b
      → Guard required b
  unfolding page_security
  guard_lem required true h = ground (arith, is_session)
  guard_lem required false h = ground (arith, is_session)

developer_required :
    (ps : List PermissionType)
    → is_authorized ps (developer ∷ admin ∷ []) any ≡ ok (has_developer_access ps)
unfolding is_authorized
developer_required ps = ground (arith, access_lem ps)

admin_required : (ps : List PermissionType) → is_authorized ps (admin ∷ []) any ≡ ok (can_admin ps)
unfolding is_authorized
admin_required ps = ground arith

-- For the session of an account, the first page lists a dashboard in its menu exactly if the dashboard's page is
-- shown to this session at the same time, and the session is sent away as forbidden else.
pub index-page_security :
    {A : Type 0} (db_now : Instant) (users : List User) (s : AccessStore) (session : Session)
    (id : Uuid) (u : User) (page : A)
    → session_uuid session.user_id ≡ some id
    → first_where (is_user id) users ≡ some u
    → let items = (index db_now users s session).account_items in
      (page_security db_now s session (some (developer ∷ admin ∷ [])) any page
        ≡ ok (
            if offers (codes "/dashboard/developer") items
            then shown page
            else redirected to_forbidden))
      × (page_security db_now s session (some (admin ∷ [])) any page
          ≡ ok (
              if offers (codes "/dashboard/admin") items
              then shown page
              else redirected to_forbidden))
unfolding index page_security home_page
index-page_security db_now users s session id u page is_session found =
    let same : u.id ≡ id = ground (arith, first_where_sound (is_user id) users u found) in
    rw (is_session, found)
      (rw same (
        rw
          (
            developer_offered u (get_active_permissions_for_user db_now s id),
            admin_offered u (get_active_permissions_for_user db_now s id),
          )
          (
            guard_lem db_now s session id page is_session (developer ∷ admin ∷ []) _
                (rw same_query (developer_required (get_active_permissions_for_user db_now s id))),
            guard_lem db_now s session id page is_session (admin ∷ []) _
                (rw same_query (admin_required (get_active_permissions_for_user db_now s id))),
          )))

-- ===== src/Tests/Access.antt =====
-- Permissions, requests, pages and the decision on an authorization.
use satoidc.Common.{
  ℕ, ◌≡◌, refl, true, false, ◌&&◌, ◌==◌, Option, none, some, List, [], ◌∷◌, Outcome, ok, raised,
  ◌↔◌, arith, ◌≢◌, if◌then◌else◌, ltb, Bool,
}
use satoidc.Common.Texts.{codes}
use satoidc.Common.Rows.{first_where}
use satoidc.Common.Uuids.{parse_uuid}
use satoidc.Models.{
  Uuid, Instant, PermissionType, developer, admin, support, PermissionRequest, approved, User,
}
use satoidc.Permissions.Store.{
  AccessStore, is_pending, has_id, get_permission_request, permission_eq, elem_permission,
  get_active_permissions_for_user, has_developer_access,
}
use satoidc.Permissions.Requests.{approve_permission_request, deny_permission_request, decide}
use satoidc.Permissions.Metrics.{developer_users, elem_id}
use satoidc.Permissions.Unique.{AccessStep, IsValid}
use satoidc.Permissions.Decided.{AccessReach, Reach-decided}
use satoidc.Permissions.Grants.{approve_grants}
use satoidc.Permissions.Developers.{elem_id-developer_users}
use satoidc.Security.{
  page_security, any, shown, redirected, to_forbidden, required_permissions, session_uuid,
}
use satoidc.Security.Pages.{IsAdmitted, page_security-shown}
use satoidc.Authorize.{
  Decision, answered, invalid_csrf, unprocessable, type_error, approve, authorize, logged_in,
  after_csrf, for_uuid, for_user, create_authorization_response, forget_csrf,
}
use satoidc.Authorize.Posted.{Asked, authorize-Asked}
use satoidc.Permissions.Abstract.{Action, AreEnabled, act_all, view}
use satoidc.Permissions.Refined.{stop, step_then, AccessRun-act_all}
use satoidc.Consent.{ConsentPage, asked, consent_page, set_csrf, authorize_get}
use satoidc.Consent.Allowed.{authorize-authorize_get}
use satoidc.Home.{index}
use satoidc.Home.Offered.{offers, index-page_security}
use satoidc.Tests.Data.{alice, alice_id, alice_text, alice_session, access, request}

abbrev row :
    {E : Type 0} → Outcome E (PermissionRequest × AccessStore) → PermissionRequest × AccessStore
row (ok a) = a
row (raised e) = (request, access)

abbrev granted : PermissionRequest × AccessStore
granted = row (approve_permission_request 20 20 access 1 alice_id none)

approves : approve_permission_request 20 20 access 1 alice_id none ≡ ok (granted.0, granted.1)
unfolding approve_permission_request get_permission_request
approves = refl

approve_grants_example :
    (granted.0 ≡ decide approved alice_id none 20 request)
    × (first_where (has_id 1) granted.1.permission_requests ≡ some granted.0)
    × ((m : ℕ)
        → m == 1 ≡ false
        → first_where (has_id m) granted.1.permission_requests
          ≡ first_where (has_id m) access.permission_requests)
    × ((at : Instant)
        → elem_permission developer (get_active_permissions_for_user at granted.1 2) ≡ true)
    × ((at : Instant) (u : Uuid) (t : PermissionType)
        → u == 2 && permission_eq t developer ≡ false
        → elem_permission t (get_active_permissions_for_user at granted.1 u)
          ≡ elem_permission t (get_active_permissions_for_user at access u))
approve_grants_example =
    approve_grants 20 20 access granted.1 1 alice_id none granted.0 approves request refl refl

access-IsValid : IsValid access
access-IsValid = record { grants = λ u t. ground arith; pendings = λ u t. ground arith }

abbrev reached : AccessReach access granted.1
reached =
    AccessReach.next 20 20 AccessReach.here (AccessStep.approve 1 alice_id none granted.0 approves)

abbrev denied_again : PermissionRequest × AccessStore
denied_again = row (deny_permission_request 30 granted.1 1 alice_id none)

denies : deny_permission_request 30 granted.1 1 alice_id none ≡ ok (denied_again.0, denied_again.1)
unfolding approve_permission_request deny_permission_request get_permission_request
denies = refl

found_granted : first_where (has_id 1) granted.1.permission_requests ≡ some granted.0
unfolding approve_permission_request get_permission_request
found_granted = refl

granted_decided : is_pending granted.0 ≡ false
unfolding approve_permission_request get_permission_request
granted_decided = refl

Reach-decided_example : first_where (has_id 1) denied_again.1.permission_requests ≡ some granted.0
Reach-decided_example =
    Reach-decided 1 granted.0 granted_decided
      (AccessReach.next 30 30 AccessReach.here
        (AccessStep.deny 1 alice_id none denied_again.0 denies))
      found_granted

elem_id-developer_users_example :
    elem_id alice_id (developer_users 20 access.permissions)
    ≡ has_developer_access (get_active_permissions_for_user 20 access alice_id)
elem_id-developer_users_example = elem_id-developer_users 20 access alice_id

abbrev page : ℕ
page = 5

page_security-shown_example :
    (page_security 20 access alice_session (some (support ∷ [])) any page ≡ ok (shown page)) ↔ (
      (u : Uuid) × (session_uuid alice_session.user_id ≡ some u)
      × IsAdmitted 20 access (required_permissions (some (support ∷ []))) u)
page_security-shown_example = page_security-shown 20 access alice_session (some (support ∷ [])) page

abbrev is_ascii : ℕ → Bool
is_ascii t = ltb t 20

abbrev consent : User → Outcome ℕ ℕ
consent u = ok 1

abbrev respond : Option (User × ℕ) → Outcome ℕ ℕ
respond none = raised 403
respond (some (u, g)) = ok 302

authorizes :
    authorize is_ascii consent respond (alice ∷ []) alice_session approve 8
    ≡ (answered 302, forget_csrf alice_session)
unfolding authorize logged_in after_csrf for_uuid for_user create_authorization_response parse_uuid
authorizes = refl

authorize-Asked_example :
    Asked is_ascii consent respond (alice ∷ []) alice_session approve 8 302
    × ((users' : List User) (decision' : Decision)
        → authorize is_ascii consent respond users' (forget_csrf alice_session) decision' 8
          ≡ (invalid_csrf, forget_csrf alice_session))
authorize-Asked_example =
    authorize-Asked is_ascii consent respond (alice ∷ []) alice_session (forget_csrf alice_session)
      approve 8 302 authorizes

AccessRun-act_all_example :
    IsValid granted.1
    × (xs : List Action) × AreEnabled xs (view access)
    × (view granted.1 ≡ act_all xs (view access))
AccessRun-act_all_example =
    AccessRun-act_all access-IsValid
      (step_then 20 20 (AccessStep.approve 1 alice_id none granted.0 approves) stop)

abbrev asked_page : ConsentPage
asked_page =
    consent_page {E = ℕ} {G = ℕ} (ok 4) (λ g. codes "App") 8 (codes "scope=openid")
      ((codes "scope", codes "openid") ∷ []) 4

asks_consent :
    authorize_get {E = ℕ} {G = ℕ}
      (ok 4)
      (λ g. codes "App")
      8
      (codes "scope=openid")
      ((codes "scope", codes "openid") ∷ [])
      alice_session
    ≡ (asked asked_page, set_csrf 8 alice_session)
unfolding authorize_get
asks_consent = refl

parses : parse_uuid alice_text ≡ some alice_id
unfolding parse_uuid
parses = refl

authorize-authorize_get_example :
    (authorize is_ascii consent respond
        (alice ∷ [])
        (set_csrf 8 alice_session)
        approve
        asked_page.csrf_token
      ≡ (
        answered (create_authorization_response consent respond alice approve),
        forget_csrf (set_csrf 8 alice_session),
      ))
    × (authorize is_ascii consent respond
          (alice ∷ [])
          (forget_csrf (set_csrf 8 alice_session))
          approve
          asked_page.csrf_token
        ≡ (invalid_csrf, forget_csrf (set_csrf 8 alice_session)))
    × ((other : ℕ)
        → other ≢ asked_page.csrf_token
        → authorize is_ascii consent respond (alice ∷ []) (set_csrf 8 alice_session) approve other
          ≡ (
            (if other == 0
                then unprocessable
                else if is_ascii other
                then invalid_csrf
                else type_error),
            set_csrf 8 alice_session,
          ))
authorize-authorize_get_example =
    authorize-authorize_get {E = ℕ} {G = ℕ} is_ascii (ok 4) (λ g. codes "App") 8 consent respond
      (codes "scope=openid") ((codes "scope", codes "openid") ∷ []) alice_session
      (set_csrf 8 alice_session) asked_page (alice ∷ []) alice_text alice_id alice approve
      (λ e. omega arith) refl asks_consent refl parses refl

session_is_alice : session_uuid alice_session.user_id ≡ some alice_id
unfolding parse_uuid
session_is_alice = refl

index-page_security_example :
    (page_security 20 access alice_session (some (developer ∷ admin ∷ [])) any page
      ≡ ok (
          if offers
            (codes "/dashboard/developer")
            (index 20 (alice ∷ []) access alice_session).account_items
          then shown page
          else redirected to_forbidden))
    × (page_security 20 access alice_session (some (admin ∷ [])) any page
        ≡ ok (
            if offers
              (codes "/dashboard/admin")
              (index 20 (alice ∷ []) access alice_session).account_items
            then shown page
            else redirected to_forbidden))
index-page_security_example =
    index-page_security 20 (alice ∷ []) access alice_session alice_id alice page session_is_alice
      refl

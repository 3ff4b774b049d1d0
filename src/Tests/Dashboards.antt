-- ===== src/Tests/Dashboards.antt =====
-- The dashboards, the pages with forms and the payload of a request.
use satoidc.Common.{
  ℕ, ◌≡◌, ◌<◌, refl, true, false, Option, none, some, List, [], ◌∷◌, ◌++◌, Outcome, ok, arith,
}
use satoidc.Common.Rows.{All, first_where}
use satoidc.Common.Texts.{Text, codes, lower}
use satoidc.Common.Quoting.{unquote}
use satoidc.Models.{Instant, User, PermissionRequest, OAuth2Client, developer}
use satoidc.Permissions.Store.{
  AccessStore, has_id, is_pending, elem_permission, get_permission_request, has_developer_access,
  get_active_permissions_for_user, get_latest_permission_request,
}
use satoidc.Permissions.Requests.{approve_permission_request, new_request}
use satoidc.Permissions.Events.{action_approved, action_created, event_of}
use satoidc.Clients.{set_client_disabled, is_client_disabled}
use satoidc.Login.Page.{login_target, register_target}
use satoidc.Login.Returned.{first_value, register_target-first_value}
use satoidc.Dashboard.Admin.{approve_request}
use satoidc.Dashboard.Announced.{approve_request_lem}
use satoidc.Dashboard.Developer.{ClientAnswer, status_updated, set_columns, toggle_client}
use satoidc.Dashboard.Kept.{IsSecreted}
use satoidc.Dashboard.Secrets.{start, then_step, toggled, ClientReach-IsSecreted}
use satoidc.Profile.{request_developer_access}
use satoidc.Profile.View.{status_of, profile}
use satoidc.Profile.Offered.{offers_request, is_open_to_request, profile-request_developer_access}
use satoidc.FastApi.Dict.{get, last_of}
use satoidc.FastApi.Payload.{
  Request, BodyValue, Json, Loaded, PayloadError, has_body_method, or_json, parse_cached_form,
  parse_cached_json, is_json, decode_cached_body, is_form_urlencoded, load,
}
use satoidc.FastApi.Merged.{Heads, query_values, listed, load_lem}
use satoidc.Tests.Data.{alice, alice_id, access, request, client, any_host}

abbrev approved_store : AccessStore
approved_store =
    elim (approve_permission_request 20 20 access 1 alice_id
      (some (codes "Approved in admin dashboard"))) [
        | Outcome.raised e ↦ access
        | Outcome.ok p ↦ p.1
      ]

approves :
    approve_request 20 20 alice_id 1 access ≡ ok (event_of action_approved request, approved_store)
unfolding approve_request approve_permission_request get_permission_request
approves = refl

approve_request_lem_example :
    (old : PermissionRequest) × (first_where (has_id 1) access.permission_requests ≡ some old)
    × (event_of action_approved request ≡ event_of action_approved old)
    × (is_pending old ≡ true
        → (at : Instant)
        → elem_permission old.permission_type
            (get_active_permissions_for_user at approved_store old.requester_id)
          ≡ true)
    × (is_pending old ≡ false → approved_store ≡ access)
approve_request_lem_example =
    approve_request_lem 20 20 alice_id 1 access approved_store (event_of action_approved request)
      approves

abbrev basic : OAuth2Client
basic = record client {
  client_metadata = record client.client_metadata {
    token_endpoint_auth_method = some (codes "client_secret_basic");
  };
}

abbrev public_row : OAuth2Client
public_row = record client {
  client_secret = 0;
  client_metadata = record client.client_metadata {
    token_endpoint_auth_method = some (codes "none");
  };
}

abbrev switched : ClientAnswer
switched = record {
  shown = status_updated;
  copy = set_client_disabled 30 basic false none;
  clients = set_columns none (set_client_disabled 30 basic false none).client_metadata basic ∷ [];
}

switches : toggle_client any_host 30 50 basic (basic ∷ []) ≡ ok switched
unfolding toggle_client set_client_disabled is_client_disabled
switches = refl

ClientReach-IsSecreted_example : All IsSecreted switched.clients
ClientReach-IsSecreted_example =
    ClientReach-IsSecreted any_host (basic ∷ []) switched.clients (refl, tt)
      (then_step start (toggled 30 50 basic switched refl switches))

ascii : All (λ c. c < 128) (codes "/a?b=c&d")
ascii = (
  omega arith,
  (
    omega arith,
    (omega arith, (omega arith, (omega arith, (omega arith, (omega arith, (omega arith, tt)))))),
  ),
)

register_target-first_value_example :
    (unquote (first_value (login_target (codes "/a?b=c&d"))) ≡ codes "/a?b=c&d")
    × (unquote (first_value (register_target (codes "/a?b=c" ++ b'&' ∷ codes "d")))
        ≡ codes "/a?b=c")
register_target-first_value_example =
    register_target-first_value (codes "/a?b=c") (codes "d") (codes "/a?b=c&d") b'&'
      (refl, (refl, (refl, (refl, (refl, (refl, tt)))))) refl ascii

abbrev bob : User
bob = record alice { id = 5 }

no_access : has_developer_access (get_active_permissions_for_user 20 access 5) ≡ false
unfolding has_developer_access get_active_permissions_for_user
no_access = refl

profile-request_developer_access_example :
    (request_developer_access 20 bob none access
      ≡ ok (
        event_of action_created (new_request 20 access 5 developer none),
        record access {
          permission_requests =
              access.permission_requests ++ new_request 20 access 5 developer none ∷ [];
        },
      ))
    × (offers_request (profile (λ t. []) (λ t. []) 20 access bob).developer_access
        ≡ is_open_to_request (status_of (get_latest_permission_request access 5 developer)))
profile-request_developer_access_example =
    profile-request_developer_access (λ t. []) (λ t. []) 20 access bob none no_access refl

-- A form that overrides the query.
abbrev posted : Request
posted = record {
  method = codes "POST";
  content_type = some (codes "application/x-www-form-urlencoded");
  query_params = (codes "a", codes "1") ∷ [];
  body = some (codes "a=2");
}

abbrev decode : List ℕ → Outcome PayloadError Text
decode bytes = ok bytes

abbrev parse_qs : Text → List (Text × List Text)
parse_qs text = (codes "a", codes "2" ∷ []) ∷ []

abbrev loads : Text → Option (Json Text)
loads text = none

abbrev loaded : Loaded Text
loaded = record {
  payload_data = (codes "a", some (codes "2")) ∷ [];
  datalist = (codes "a", codes "2" ∷ []) ∷ [];
}

reads_posted : load (λ t. t) decode parse_qs loads posted ≡ ok loaded
unfolding load parse_cached_form parse_cached_json decode_cached_body is_form_urlencoded is_json
    lower
reads_posted = refl

load_lem_example :
    Heads loaded
    × (has_body_method posted.method ≡ false
        → (k : Text) → get k loaded.datalist ≡ query_values (λ t. t) decode parse_qs loads posted k)
    × (has_body_method posted.method ≡ true
        → (body : List (Text × BodyValue Text)) × (parse_cached_form
              (λ t. t)
              decode
              parse_qs
              loads
              posted
            ≡ ok body)
          × ((k : Text)
              → get k loaded.datalist
                ≡ last_of k
                    (listed (or_json (λ t. t) decode parse_qs loads posted body))
                    (query_values (λ t. t) decode parse_qs loads posted k)))
load_lem_example = load_lem (λ t. t) decode parse_qs loads posted loaded reads_posted

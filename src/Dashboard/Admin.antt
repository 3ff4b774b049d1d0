-- ===== src/Dashboard/Admin.antt =====
-- The handlers and the lists of the page `/dashboard/admin`. A handler's commit ends its transaction.
use satoidc.Common.{ℕ, Option, some, List, [], ◌∷◌, Outcome, ok, ◌>>=◌, leb, if◌then◌else◌}
use satoidc.Common.Rows.{rows_where}
use satoidc.Common.Texts.{Text, codes}
use satoidc.Models.{
  Uuid, Instant, developer, pending, User, Permission, PermissionRequest, OAuth2Client,
}
use satoidc.Permissions.Store.{
  AccessStore, AccessError, permission_eq, take_rows, list_permission_requests,
}
use satoidc.Permissions.Requests.{approve_permission_request, deny_permission_request}
use satoidc.Permissions.Metrics.{AdminDashboardMetrics, get_admin_dashboard_metrics, is_inactive}
use satoidc.Permissions.Events.{RequestEvent, action_approved, action_denied, event_of}

module _ (db_now now : Instant) (actor_id : Uuid) where
  unfoldable pub approve_request :
      ℕ → AccessStore → Outcome AccessError (RequestEvent × AccessStore)
  approve_request n s = do
    (r, s') ←
        approve_permission_request db_now now s n actor_id
          (some (codes "Approved in admin dashboard"))
    ok (event_of action_approved r, s')

  unfoldable pub deny_request :
      Option Text → ℕ → AccessStore → Outcome AccessError (RequestEvent × AccessStore)
  deny_request reason n s = do
    (r, s') ← deny_permission_request now s n actor_id reason
    ok (event_of action_denied r, s')

-- `order_by(column.desc())`
module _ {ℓ} {Row : Type ℓ} (column : Row → ℕ) where
  abbrev pub insert_desc : Row → List Row → List Row
  insert_desc r [] = r ∷ []
  insert_desc r (q ∷ qs) =
      let rest = insert_desc r qs in if leb (column q) (column r) then r ∷ q ∷ qs else q ∷ rest

  abbrev pub order_desc : List Row → List Row
  order_desc [] = []
  order_desc (r ∷ rs) = insert_desc r (order_desc rs)

-- What `admin_dashboard_content` reads.
pub record AdminContent : Type 0 where
  pub metrics : AdminDashboardMetrics
  pub pending_requests : List PermissionRequest
  pub recent_permissions : List Permission
  pub users : List User
  pub clients : List OAuth2Client
  pub inactive_permissions : List Permission

unfoldable pub admin_dashboard_content :
    Instant → Instant → List User → List OAuth2Client → AccessStore → AdminContent
admin_dashboard_content db_now now users clients s = record {
  metrics = get_admin_dashboard_metrics db_now now users clients s;
  pending_requests = list_permission_requests s (some pending) 25;
  recent_permissions = take_rows 5 (
      order_desc (λ p. p.created_at)
        (rows_where (λ p. permission_eq p.permission_type developer) s.permissions));
  users = take_rows 10 (order_desc (λ u. u.created_at) users);
  clients = take_rows 10 (order_desc (λ c. c.client_id_issued_at) clients);
  inactive_permissions =
      take_rows 10 (order_desc (λ p. p.created_at) (rows_where (is_inactive db_now) s.permissions));
}

-- ===== src/Permissions/Metrics.antt =====
-- `AdminDashboardMetrics` and `get_admin_dashboard_metrics` of satoidc/satoidc/auth/permissions.py. A
-- count is never `None`.
use satoidc.Common.{
  ℕ, ◌-◌, ◌*◌, ◌/◌, Bool, false, ◌&&◌, Option, none, some, List, [], ◌∷◌, leb, ◌==◌, ◌||◌,
  if◌then◌else◌,
}
use satoidc.Common.Rows.{count_where, length}
use satoidc.Models.{Uuid, Instant, seconds, User, Permission, OAuth2Client}
use satoidc.Permissions.Store.{
  AccessStore, is_developer_permission, is_live, get_pending_permission_request_count,
}

pub record AdminDashboardMetrics : Type 0 where
  pub pending_requests : ℕ
  pub total_users : ℕ
  pub developer_access_users : ℕ
  pub registered_clients : ℕ
  pub recently_created_clients : ℕ
  pub inactive_permissions : ℕ

abbrev pub elem_id : Uuid → List Uuid → Bool
elem_id u [] = false
elem_id u (v ∷ vs) = u == v || elem_id u vs

abbrev pub add_distinct : Uuid → List Uuid → List Uuid
add_distinct u us = if elem_id u us then us else u ∷ us

-- `distinct(Permission.user_id)` where the permission gives developer access and is live
unfoldable pub developer_users : Instant → List Permission → List Uuid
developer_users db_now [] = []
developer_users db_now (p ∷ ps) =
    let rest = developer_users db_now ps in
    if is_developer_permission p.permission_type && is_live db_now p
    then add_distinct p.user_id rest
    else rest

abbrev expired : Instant → Option Instant → Bool
expired db_now none = false
expired db_now (some t) = leb t db_now

-- `disabled.is_(True) | (expiration_date <= func.now())`
abbrev pub is_inactive : Instant → Permission → Bool
is_inactive db_now p = p.disabled || expired db_now p.expiration_date

unfoldable pub get_admin_dashboard_metrics :
    Instant → Instant → List User → List OAuth2Client → AccessStore → AdminDashboardMetrics
unfolding developer_users get_pending_permission_request_count
get_admin_dashboard_metrics db_now now users clients s =
    let recent_cutoff : ℕ = (now - seconds (7 * 86400)) / 1000000 in
    record {
      pending_requests = get_pending_permission_request_count s;
      total_users = length users;
      developer_access_users = length (developer_users db_now s.permissions);
      registered_clients = length clients;
      recently_created_clients = count_where (λ c. leb recent_cutoff c.client_id_issued_at) clients;
      inactive_permissions = count_where (is_inactive db_now) s.permissions;
    }

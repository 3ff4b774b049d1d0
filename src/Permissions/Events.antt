-- ===== src/Permissions/Events.antt =====
-- What the pages send to `permission_request_events` of satoidc/satoidc/auth/permissions.py when a request
-- has been made or decided.
use satoidc.Common.{ℕ}
use satoidc.Models.{Uuid, PermissionType, PermissionRequest}

-- The texts "created", "approved" and "denied"
pub data EventAction : Type 0 where
  action_created action_approved action_denied : EventAction

pub record RequestEvent : Type 0 where
  pub action : EventAction
  pub permission_request_id : ℕ
  pub permission_type : PermissionType
  pub requester_id : Uuid

abbrev pub event_of : EventAction → PermissionRequest → RequestEvent
event_of action r = record {
  action = action;
  permission_request_id = r.id;
  permission_type = r.permission_type;
  requester_id = r.requester_id;
}

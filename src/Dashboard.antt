-- ===== src/Dashboard.antt =====
-- satoidc/satoidc/routes/dashboard.py. Admin is the page of the admins, Developer that of the developers.
-- A page keeps the rows it has read; what its handlers commit is written to the rows of these numbers.
pub mod Edited
pub mod Kept
pub mod Admin
pub mod Announced
pub mod Developer
pub mod Dialog
pub mod Reopened
pub mod Secrets
pub mod Stale
pub mod Cards
use satoidc.Common.{Option, none, some, if◌then◌else◌}
use satoidc.Common.Uuids.{uuid_text}
use satoidc.Common.Texts.{Text, is_empty}
use satoidc.Models.{User}

-- `a or b`, where `None` and the empty text are no text
abbrev pub or_else : Option Text → Text → Text
or_else none other = other
or_else (some t) other = if is_empty t then other else t

-- `user.login or user.email or user.nickname or str(user.id)`
unfoldable pub identity_text : User → Text
identity_text u = or_else u.login (or_else u.email (or_else (some u.nickname) (uuid_text u.id)))

-- ===== src/Permissions.antt =====
-- satoidc/satoidc/auth/permissions.py: who may do what, and how a user asks for more.
-- Store holds the tables and the queries, Requests the operations on requests, Metrics the counts of
-- the admin dashboard. The other modules are proofs.
pub mod Asks
pub mod Store
pub mod Requests
pub mod Metrics
pub mod Matching
pub mod Effects
pub mod Unique
pub mod Grants
pub mod Decided
pub mod Pending
pub mod Developers
pub mod Events
pub mod Abstract
pub mod Refined
pub mod Orderless
pub mod Keyed
pub mod Agreed
pub mod Reordered

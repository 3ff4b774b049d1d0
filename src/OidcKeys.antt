-- ===== src/OidcKeys.antt =====
-- satoidc/satoidc/auth/oidc_keys.py: the signing keys of the provider and their audit log.
-- Store holds the rows and the creation of keys, Lifecycle activation, rotation and retirement,
-- Publish what clients and the token endpoint read. The other modules are proofs.
pub mod Store
pub mod Lifecycle
pub mod Publish
pub mod Effects
pub mod Active
pub mod Steps
pub mod Retired
pub mod Sorted
pub mod Published
pub mod Signing

-- ===== src/FastApi.antt =====
-- satoidc/satoidc/fastapi_oauth2: how Authlib's server sees the requests of Starlette. Payload is requests.py,
-- Server authorization_server.py and Protector resource_protector.py; the other modules are proofs.
pub mod Dict
pub mod Payload
pub mod Merged
pub mod Server
pub mod Protector
pub mod Generators
pub mod App

-- ===== src/Lib.antt =====
-- SatOIDC, an OpenID Connect provider with password and Lightning-wallet login: a model of its core
-- and what holds of it. Paths are from the repository's root.
--
-- The parts, and the files that model them:
--   Models        the rows of the tables (satoidc/satoidc/models/__init__.py, enums.py)
--   Settings      the settings and the checks of a production deployment (satoidc/satoidc/settings.py)
--   OidcKeys      the keys that sign tokens (satoidc/satoidc/auth/oidc_keys.py): Store has creation,
--                 Lifecycle activation, rotation and retirement, Publish the key set. The other files
--                 prove: Effects what each call changes, Active, Steps, Retired, Sorted, Published,
--                 Signing
--   Permissions   permissions and requests for them (satoidc/satoidc/auth/permissions.py): Store,
--                 Requests, Events and Metrics have the operations, Abstract the view of them without
--                 tables, Orderless the tables up to the order of rows; Effects, Matching, Unique, Keyed, Grants,
--                 Decided, Pending, Developers, Refined, Agreed and Reordered the proofs
--   Security      who sees a page (satoidc/satoidc/auth/security.py); Security/Pages the proof
--   Middleware    which requests need a login (satoidc/satoidc/auth/middleware.py)
--   Redirect      `safe_redirect` (satoidc/satoidc/utils.py)
--   Validators    the rules for logins, nicknames and passwords (satoidc/satoidc/validators.py)
--   Lnurl         the wallet's callback (satoidc/satoidc/routes/lnurl_auth.py): Answers says what has been
--                 checked when it answers, Keys whose account it leads to, Once what it uses up; Challenges has
--                 the challenges that the pages show, Link their links (satoidc/satoidc/auth/lnurl.py)
--   Login         the pages and the posted forms for login and registration, the logout, and the way of a wallet
--                 login to the browser's session (satoidc/satoidc/routes/login.py, register.py): Page has the
--                 pages; Posted, Registered, Wallet, Arrived and Returned the proofs
--   Profile       the handlers of the profile, in View what it shows (satoidc/satoidc/routes/profile.py); Changes,
--                 Lockout and Offered the proofs
--   Setup         the wizard that makes the first root user (satoidc/setup_wizard/routes.py, get_root.py,
--                 __main__.py); FirstRoot and Granted the proofs
--   Identity      all the operations on accounts, in any order; Kept and Sound the proofs
--   Clients       the data of OAuth clients (satoidc/satoidc/auth/client_management.py,
--                 satoidc/satoidc/routes/create_client.py)
--   Dashboard     the pages of admins and developers (satoidc/satoidc/routes/dashboard.py): Admin, Developer and
--                 Cards, Dialog what the edit dialog opens with; Announced, Secrets, Stale and Reopened the proofs
--   Home          what the first page offers (satoidc/satoidc/routes/home.py); Home/Offered the proof
--   OAuth         the tables behind the OAuth server and the ID token (satoidc/satoidc/auth/oauth2.py), in Discovery
--                 and Userinfo two of its routes (satoidc/satoidc/routes/oauth2.py, satoidc/satoidc/auth/scopes.py)
--   FastApi       what Authlib's server sees of a request, and the tokens it draws
--                 (satoidc/satoidc/fastapi_oauth2/*.py, satoidc/satoidc/__init__.py): Dict, Payload, Server, Protector
--                 and App; Merged and Generators the proofs
--   Consent       the page that asks for consent (satoidc/satoidc/routes/authorize.py); Consent/Allowed the proof
--   Authorize     the posted decision on an authorization (satoidc/satoidc/routes/oauth2.py)
--   KeyAdmin      the routes on the signing keys (satoidc/satoidc/routes/oauth2.py)
--   Examples      a client of the server (examples/public_client.py, and the same in examples/basic_client.py);
--                 Shown and Accepted the proofs
--   Common        shared: results, rows of a table, texts, UUIDs, URL quoting; Tests: concrete data
--
-- How they interact: the middleware lets a request pass or sends it to the login; a form, or the wallet's
-- callback with the event that a page waits for, writes the user into the session; pages and the routes on
-- keys read the session and the live permissions of its user; a decision on an authorization reaches the
-- OAuth server, which stores codes and tokens and signs with the active key.
--
-- State: a table is the list of its rows in the order of insertion, an operation takes the tables and
-- returns them. A call that raises returns no tables, since the database undoes what it has not committed;
-- where a handler returns without a commit the old tables are returned. Every loop is a recursion on a list
-- or a text, so no fuel is used. Times are counts of microseconds, seconds where the column holds seconds.
--
-- Parameters stand for code that is not in the repository: the generation and encryption of keys, the
-- check of a signature, hashing of passwords, the check of an address, Authlib's server, the clocks, fresh
-- numbers and tokens, the checks of a host in `urlparse`, and which tokens are in ASCII. A text that the program only stores and
-- compares is a number, 0 the empty one.
--
-- A page holds the rows that it has read. A handler changes this copy and writes the columns that it assigns to
-- the row of the same number, also where the copy had the value already; a commit for a row that is gone raises.
-- What a page shows is a record of texts and buttons.
--
-- Not modelled: the layout of the pages and satoidc/satoidc/routes/ui_components.py, which only draw; the token,
-- introspection and revocation routes, which only call Authlib; the registration of Authlib's grants;
-- the sessions of the database; the migrations.
pub mod Common
pub mod Models
pub mod Settings
pub mod OidcKeys
pub mod Permissions
pub mod Security
pub mod Middleware
pub mod Redirect
pub mod Validators
pub mod Lnurl
pub mod Login
pub mod Clients
pub mod Profile
pub mod Setup
pub mod Identity
pub mod Dashboard
pub mod Examples
pub mod Home
pub mod Consent
pub mod OAuth
pub mod FastApi
pub mod Authorize
pub mod KeyAdmin
mod Tests

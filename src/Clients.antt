-- ===== src/Clients.antt =====
-- satoidc/satoidc/auth/client_management.py and satoidc/satoidc/routes/create_client.py: the data of a
-- client, and its changes. Each handler returns the client as it is stored. A timestamp of 0 is no
-- timestamp, and a public client is one whose authentication method is `none`.
pub mod Fields
pub mod Lines
pub mod Scopes
pub mod Metadata
pub mod Changes
pub mod Checked
pub mod Creation
use satoidc.Common.{
  ℕ, Bool, true, false, not, ◌&&◌, ◌||◌, Option, none, some, List, [], ◌∷◌, ◌++◌, Outcome, ok,
  raised, ◌>>=◌, ◌==◌, if◌then◌else◌,
}
use satoidc.Common.Texts.{Text, codes, text_eq}
use satoidc.Models.{ClientMetadata, OAuth2Client, Token}

-- `bool(metadata.get("disabled_at"))`
abbrev pub is_truthy : Option ℕ → Bool
is_truthy none = false
is_truthy (some n) = not (n == 0)

unfoldable pub is_client_disabled : OAuth2Client → Bool
is_client_disabled client = is_truthy client.client_metadata.disabled_at

-- `now or int(time.time())`
abbrev pub timestamp : Option ℕ → ℕ → ℕ
timestamp none clock = clock
timestamp (some n) clock = if n == 0 then clock else n

abbrev pub with_metadata : OAuth2Client → ClientMetadata → OAuth2Client
with_metadata client m = record client { client_metadata = m }

module _ (clock : ℕ) where
  unfoldable pub set_client_disabled : OAuth2Client → Bool → Option ℕ → OAuth2Client
  set_client_disabled client disabled now =
      let t = timestamp now clock in
      with_metadata client record client.client_metadata {
        disabled_at = if disabled then some t else none;
        updated_at = some t;
      }

  abbrev pub is_public_method : Option Text → Bool
  is_public_method none = false
  is_public_method (some m) = text_eq m (codes "none")

  -- `secret` is the token that `token_urlsafe` draws.
  unfoldable pub rotate_client_secret :
      Token → OAuth2Client → Option ℕ → Outcome (List Text) (Token × OAuth2Client)
  rotate_client_secret secret client now =
      if is_public_method client.client_metadata.token_endpoint_auth_method
      then raised (codes "Public clients do not have a secret to rotate." ∷ [])
      else let t = timestamp now clock in
        ok (
          secret,
          record client {
            client_secret = secret;
            client_metadata = record client.client_metadata {
              client_secret_rotated_at = some t;
              updated_at = some t;
            };
          },
        )

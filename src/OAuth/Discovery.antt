-- ===== src/OAuth/Discovery.antt =====
-- `well_known` and the key set of satoidc/satoidc/routes/oauth2.py, and satoidc/satoidc/auth/scopes.py.
-- `digits` writes a number in decimal.
use satoidc.Common.{ℕ, List, [], ◌∷◌, ◌++◌, map}
use satoidc.Common.Texts.{Text, codes}
use satoidc.Settings.{Settings}

-- The keys of `scopes`, with what the consent page says of each.
abbrev pub scopes : List (Text × Text)
scopes =
    (codes "openid", codes "Allows authentication and access to your unique identifier.")
    ∷ (
      codes "profile",
      codes "Allows access to basic user profile information, such as name and nickname.",
    )
    ∷ (codes "email", codes "Allows access to the user's email address.")
    ∷ []

pub record Discovery : Type 0 where
  pub issuer : Text
  pub authorization_endpoint : Text
  pub token_endpoint : Text
  pub userinfo_endpoint : Text
  pub jwks_uri : Text
  pub response_types_supported : List Text
  pub grant_types_supported : List Text
  pub subject_types_supported : List Text
  pub id_token_signing_alg_values_supported : List Text
  pub scopes_supported : List Text
  pub token_endpoint_auth_methods_supported : List Text
  pub claims_supported : List Text
  pub code_challenge_methods_supported : List Text

unfoldable pub well_known : Settings → Discovery
well_known env = record {
  issuer = env.oauth2_jwt_iss;
  authorization_endpoint = env.oauth2_jwt_iss ++ codes "/authorize";
  token_endpoint = env.oauth2_jwt_iss ++ codes "/oauth/token";
  userinfo_endpoint = env.oauth2_jwt_iss ++ codes "/oauth/userinfo";
  jwks_uri = env.oauth2_jwt_iss ++ codes "/.well-known/jwks.json";
  response_types_supported = codes "code" ∷ [];
  grant_types_supported = codes "authorization_code" ∷ codes "refresh_token" ∷ [];
  subject_types_supported = codes "public" ∷ [];
  id_token_signing_alg_values_supported = codes "RS256" ∷ [];
  scopes_supported = map (λ p. p.0) scopes;
  token_endpoint_auth_methods_supported =
      codes "none" ∷ codes "client_secret_post" ∷ codes "client_secret_basic" ∷ [];
  claims_supported =
      codes "sub"
      ∷ codes "iss"
      ∷ codes "aud"
      ∷ codes "exp"
      ∷ codes "iat"
      ∷ codes "profile"
      ∷ codes "email"
      ∷ [];
  code_challenge_methods_supported = codes "S256" ∷ [];
}

-- The header of the answer with the key set.
unfoldable pub jwks_cache_control : (ℕ → Text) → Settings → Text
jwks_cache_control digits env = codes "public, max-age=" ++ digits env.oidc_jwks_cache_ttl_seconds

-- ===== src/Settings.antt =====
-- satoidc/satoidc/settings.py: the fields that the modelled code reads, and the checks that a
-- deployment passes when the settings are made. Durations are in seconds.
pub mod Production
use satoidc.Common.{
  ℕ, Bool, true, Option, none, some, ◌∷◌, [], List, if◌then◌else◌, not, Outcome, ok, raised,
}
use satoidc.Common.Texts.{Text, codes, lower, text_eq, elem_text}

pub record Settings : Type 0 where
  pub app_env : Text
  pub lnurl_k1_ttl_seconds : ℕ
  pub oauth2_jwt_iss : Text
  pub oauth2_jwt_secret_key : Text
  pub oauth2_jwt_alg : Text
  pub oauth2_token_expires_in : ℕ
  pub oidc_jwks_cache_ttl_seconds : ℕ
  pub oidc_key_retention_margin_seconds : ℕ
  pub session_middleware_secret_key : Text
  pub session_cookie_https_only_setting : Option Bool

abbrev pub production_environments : List Text
production_environments = codes "production" ∷ codes "prod" ∷ []

abbrev pub placeholder_secret : Text
placeholder_secret = codes "CHANGE_ME_TO_A_LONG_RANDOM_SECRET"

abbrev pub default_settings : Settings
default_settings = record {
  app_env = codes "development";
  lnurl_k1_ttl_seconds = 60;
  oauth2_jwt_iss = codes "http://localhost:8000";
  oauth2_jwt_secret_key = placeholder_secret;
  oauth2_jwt_alg = codes "RS256";
  oauth2_token_expires_in = 300;
  oidc_jwks_cache_ttl_seconds = 300;
  oidc_key_retention_margin_seconds = 900;
  session_middleware_secret_key = placeholder_secret;
  session_cookie_https_only_setting = none;
}

unfoldable pub is_production : Settings → Bool
unfolding lower
is_production env = elem_text (lower env.app_env) production_environments

cookie_flag : Option Bool → Bool → Bool
cookie_flag none production = production
cookie_flag (some flag) production = flag

unfoldable pub session_cookie_https_only : Settings → Bool
unfolding cookie_flag
session_cookie_https_only env =
    cookie_flag env.session_cookie_https_only_setting (is_production env)

pub data SettingsError : Type 0 where
  session_secret_placeholder jwt_secret_placeholder insecure_cookie : SettingsError

unfoldable pub model_post_init : Settings → Outcome SettingsError Settings
model_post_init env =
    if not (is_production env)
    then ok env
    else if text_eq env.session_middleware_secret_key placeholder_secret
    then raised session_secret_placeholder
    else if text_eq env.oauth2_jwt_secret_key placeholder_secret
    then raised jwt_secret_placeholder
    else if not (session_cookie_https_only env)
    then raised insecure_cookie
    else ok env

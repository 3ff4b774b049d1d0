-- ===== src/Settings/Production.antt =====
-- What the settings of a production deployment are known to be once they are made.
use satoidc.Common.{◌≡◌, ◌≢◌, true, false, ◌⊎◌, ◌↔◌, inl, inr, ok, Bool-cases, arith}
use satoidc.Common.Texts.{text_eq_iff}
use satoidc.Settings.{
  Settings, is_production, session_cookie_https_only, model_post_init, placeholder_secret,
}

pub record IsHardened (env : Settings) : Type 0 where
  pub session_secret : env.session_middleware_secret_key ≢ placeholder_secret
  pub jwt_secret : env.oauth2_jwt_secret_key ≢ placeholder_secret
  pub secure_cookie : session_cookie_https_only env ≡ true

-- Settings are accepted exactly when they are not for production, or both secrets have been changed
-- and the session cookie is only sent over HTTPS.
pub model_post_init_accepts :
    (env : Settings)
    → (model_post_init env ≡ ok env) ↔ ((is_production env ≡ false) ⊎ IsHardened env)
unfolding model_post_init
model_post_init_accepts env =
    let session = text_eq_iff env.session_middleware_secret_key placeholder_secret in
    let jwt = text_eq_iff env.oauth2_jwt_secret_key placeholder_secret in
    (
      λ h. elim (Bool-cases (is_production env)) [
        | inl p ↦ inr (record {
          session_secret = λ e. ground (arith, session, jwt);
          jwt_secret = λ e. ground (arith, session, jwt);
          secure_cookie = ground (arith, session, jwt);
        })
        | inr d ↦ inl d
      ],
      λ h. ground (arith, session, jwt),
    )

-- ===== src/OidcKeys/Publish.antt =====
-- `get_active_jwt_config`, `get_jwks` and `list_signing_keys` of satoidc/satoidc/auth/oidc_keys.py.
-- `encrypt` and `decrypt` are Fernet's under the configured secret.
use satoidc.Common.{ℕ, List, [], ◌∷◌, map, Outcome, ok, ◌>>=◌, leb, if◌then◌else◌}
use satoidc.Common.Rows.{rows_where}
use satoidc.Common.Texts.{Text}
use satoidc.Models.{Token, Instant, PublicJwk, OidcSigningKey}
use satoidc.Settings.{Settings}
use satoidc.OidcKeys.Store.{
  KeyStore, KeyError, KeyMaterial, is_publishable, ensure_active_signing_key,
}

-- `jwk.import_key` keeps the private key that it is given.
pub record JwtConfig : Type 0 where
  pub key : Token
  pub kid : Token
  pub alg : Text
  pub iss : Text
  pub exp : ℕ

unfoldable pub insert_by_created : OidcSigningKey → List OidcSigningKey → List OidcSigningKey
insert_by_created k [] = k ∷ []
insert_by_created k (j ∷ js) =
    if leb k.created_at j.created_at then k ∷ j ∷ js else j ∷ insert_by_created k js

-- `order_by(OidcSigningKey.created_at)`: a stable sort.
unfoldable pub order_by_created_at : List OidcSigningKey → List OidcSigningKey
unfolding insert_by_created
order_by_created_at [] = []
order_by_created_at (k ∷ ks) = insert_by_created k (order_by_created_at ks)

abbrev pub published_keys : KeyStore → List OidcSigningKey
published_keys s = order_by_created_at (rows_where is_publishable s.signing_keys)

module _ (env : Settings) (encrypt decrypt : Token → Token) (db_now : Instant) where
  unfoldable pub get_active_jwt_config :
      KeyMaterial → Instant → KeyStore → Outcome KeyError (JwtConfig × KeyStore)
  unfolding ensure_active_signing_key
  get_active_jwt_config m now s = do
    (key_row, s') ← ensure_active_signing_key env encrypt db_now m now s
    ok (
      record {
        key = decrypt key_row.private_jwk_encrypted;
        kid = key_row.kid;
        alg = key_row.alg;
        iss = env.oauth2_jwt_iss;
        exp = env.oauth2_token_expires_in;
      },
      s',
    )

module _ (env : Settings) (encrypt : Token → Token) (db_now : Instant) where
  unfoldable pub get_jwks :
      KeyMaterial → Instant → KeyStore → Outcome KeyError (List PublicJwk × KeyStore)
  unfolding ensure_active_signing_key order_by_created_at
  get_jwks m now s = do
    (key, s') ← ensure_active_signing_key env encrypt db_now m now s
    ok (map (λ k. k.public_jwk) (published_keys s'), s')

  unfoldable pub list_signing_keys :
      KeyMaterial → Instant → KeyStore → Outcome KeyError (List OidcSigningKey × KeyStore)
  unfolding ensure_active_signing_key order_by_created_at
  list_signing_keys m now s = do
    (key, s') ← ensure_active_signing_key env encrypt db_now m now s
    ok (order_by_created_at s'.signing_keys, s')

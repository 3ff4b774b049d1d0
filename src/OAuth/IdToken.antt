-- ===== src/OAuth/IdToken.antt =====
-- `OpenIDCode` of satoidc/satoidc/auth/oauth2.py: the ID token. `encode` stands for Authlib's encoding, from
-- the key, the header and the claims that the overridden methods give it; they all read the configuration
-- that the call has fetched, whatever happens to the keys meanwhile.
use satoidc.Common.{
  ℕ, ◌+◌, ◌≡◌, ◌≤◌, refl, subst, List, [], ◌∷◌, Outcome, ok, ◌>>=◌, >>=-ok, ok_parts,
}
use satoidc.Common.Texts.{Text, codes}
use satoidc.Common.Rows.{count_where}
use satoidc.Models.{Token, Instant, PublicJwk}
use satoidc.Settings.{Settings}
use satoidc.OidcKeys.Store.{KeyStore, KeyError, KeyMaterial, audit_token_signed}
use satoidc.OidcKeys.Publish.{JwtConfig, get_active_jwt_config, get_jwks}
use satoidc.OidcKeys.Signing.{
  HasPublicKids, has_jwk_kid, get_active_jwt_config-active, get_jwks-active,
}

pub record Claims : Type 0 where
  pub iss : Text
  pub aud : List Token
  pub iat : ℕ
  pub exp : ℕ
  pub auth_time : ℕ

pub record Header : Type 0 where
  pub alg : Text
  pub typ : Text
  pub kid : Token

abbrev pub get_client_claims : ℕ → JwtConfig → Token → Claims
get_client_claims clock config client_id = record {
  iss = config.iss;
  aud = client_id ∷ [];
  iat = clock;
  exp = clock + config.exp;
  auth_time = clock;
}

abbrev pub get_encode_header : JwtConfig → Header
get_encode_header config = record { alg = config.alg; typ = codes "JWT"; kid = config.kid }

module _ (env : Settings) (encrypt decrypt : Token → Token)
    (encode : Token → Header → Claims → Token) where
  abbrev pub encoded : ℕ → JwtConfig → Token → Token
  encoded clock config client_id =
      encode config.key (get_encode_header config) (get_client_claims clock config client_id)

  unfoldable pub encode_id_token :
      Instant → KeyMaterial → Instant → ℕ → Token → KeyStore → Outcome KeyError (Token × KeyStore)
  encode_id_token db_now m now clock client_id s = do
    (config, s') ← get_active_jwt_config env encrypt decrypt db_now m now s
    ok (encoded clock config client_id, audit_token_signed db_now config.kid s')

  -- An ID token is encoded with a configuration whose kid is in the key set that is published next, where
  -- every row's public half carries the row's kid: the kid of its header can be looked up there.
  pub encode_id_token-get_jwks :
      (db_now now db_later later : Instant) (m m' : KeyMaterial) (clock : ℕ)
      (client_id id_token : Token) (jwks : List PublicJwk) (s s' s'' : KeyStore)
      → HasPublicKids s.signing_keys
      → encode_id_token db_now m now clock client_id s ≡ ok (id_token, s')
      → get_jwks env encrypt db_later m' later s' ≡ ok (jwks, s'')
      → (config : JwtConfig) × (id_token ≡ encoded clock config client_id)
        × (1 ≤ count_where (has_jwk_kid (get_encode_header config).kid) jwks)
  unfolding encode_id_token audit_token_signed
  encode_id_token-get_jwks db_now now db_later later m m' clock client_id id_token jwks s s' s'' p h
        published =
      let ((config, t), g, r) =
        >>=-ok (get_active_jwt_config env encrypt decrypt db_now m now s) _ h in
      let (same_token, same_store) = ok_parts refl r in
      let (k, found, same_kid, kids) =
        get_active_jwt_config-active env encrypt decrypt db_now now m config s t p g in
      let there =
        get_jwks-active env encrypt db_later later m' jwks k
          (audit_token_signed db_now config.kid t) s'' found kids
          (subst (λ u. get_jwks env encrypt db_later m' later u ≡ ok (jwks, s'')) same_store
            published) in
      (config, same_token, rw same_kid there)

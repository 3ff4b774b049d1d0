-- ===== src/Tests/Keys.antt =====
-- The key service.
use satoidc.Common.{◌≡◌, ◌≤◌, refl, true, List, [], Outcome, ok, raised, arith, ◌+◌}
use satoidc.Common.Texts.{Text, codes}
use satoidc.Common.Rows.{count_where}
use satoidc.Common.Uuids.{parse_uuid}
use satoidc.Models.{Token, active, OidcSigningKey, PublicJwk}
use satoidc.Settings.{default_settings}
use satoidc.Security.{is_authorized, get_active_user_permissions}
use satoidc.OidcKeys.Store.{
  audit_token_signed, KeyStore, has_kid, create_signing_key, ensure_active_signing_key,
}
use satoidc.OidcKeys.Lifecycle.{
  activate_signing_key, rotate_signing_key, retire_expired_signing_keys,
}
use satoidc.OidcKeys.Publish.{JwtConfig, published_keys, get_active_jwt_config, get_jwks}
use satoidc.OidcKeys.Active.{IsValid}
use satoidc.OidcKeys.Steps.{KeyStep, KeyReach, KeyReach-IsValid}
use satoidc.OidcKeys.Retired.{is_retired_kid, Reach-is_retired_kid}
use satoidc.OidcKeys.Published.{published-retire-rotate}
use satoidc.OidcKeys.Signing.{has_jwk_kid, signing_key_is_published}
use satoidc.KeyAdmin.{
  retired_count, retire_expired_keys, require_key_admin, by_route, handle,
  admin_retire_expired_oidc_keys,
}
use satoidc.KeyAdmin.Guarded.{IsKeyAdmin, handle-IsKeyAdmin}
use satoidc.OAuth.IdToken.{
  Claims, Header, get_encode_header, encoded, encode_id_token, encode_id_token-get_jwks,
}
use satoidc.Tests.Data.{key_row, key_store, old_keys, material, identity, access, alice_session}

abbrev returned : {E A : Type 0} → Outcome E A → A → A
returned (ok a) d = a
returned (raised e) d = d

abbrev rotated : OidcSigningKey × KeyStore
rotated =
    returned
      (rotate_signing_key default_settings identity 10 (material 3) (codes "admin") 10 key_store)
      (key_row 1 active, key_store)

rotates :
    rotate_signing_key default_settings identity 10 (material 3) (codes "admin") 10 key_store
    ≡ ok (rotated.0, rotated.1)
unfolding rotate_signing_key create_signing_key activate_signing_key
rotates = refl

published-retire-rotate_example :
    1
    ≤ count_where
        (has_kid 1)
        (published_keys (retire_expired_signing_keys 10 (codes "admin") 20 rotated.1).1)
published-retire-rotate_example =
    published-retire-rotate default_settings identity 10 10 20 (material 3) (codes "admin")
      (codes "admin") rotated.0 (key_row 1 active) 1 key_store rotated.1 refl refl rotates
      (omega arith)

abbrev config : JwtConfig × KeyStore
config =
    returned (get_active_jwt_config default_settings identity identity 10 (material 3) 10 key_store)
      (record { key = 0; kid = 0; alg = []; iss = []; exp = 0 }, key_store)

abbrev jwks : List PublicJwk × KeyStore
jwks = returned (get_jwks default_settings identity 20 (material 4) 20 config.1) ([], key_store)

configures :
    get_active_jwt_config default_settings identity identity 10 (material 3) 10 key_store
    ≡ ok (config.0, config.1)
unfolding get_active_jwt_config ensure_active_signing_key
configures = refl

publishes : get_jwks default_settings identity 20 (material 4) 20 config.1 ≡ ok (jwks.0, jwks.1)
unfolding get_jwks ensure_active_signing_key get_active_jwt_config
publishes = refl

signing_key_is_published_example : 1 ≤ count_where (has_jwk_kid config.0.kid) jwks.0
signing_key_is_published_example =
    signing_key_is_published default_settings identity identity 10 10 20 20 (material 3)
      (material 4) config.0 jwks.0 key_store config.1 jwks.1 (refl, (refl, tt)) configures publishes

abbrev swept : KeyStore
swept = (retire_expired_signing_keys 20 (codes "admin") 20 key_store).1

key_store-IsValid : IsValid key_store.signing_keys
key_store-IsValid = record { kids = λ k. ground arith; one_active = omega arith }

KeyReach-IsValid_example : IsValid swept.signing_keys
KeyReach-IsValid_example =
    KeyReach-IsValid default_settings identity
      (KeyReach.next KeyReach.here (KeyStep.retire_expired (codes "admin") 20 20 refl))
      key_store-IsValid

abbrev swept_old : KeyStore
swept_old = (retire_expired_signing_keys 20 (codes "admin") 20 old_keys).1

Reach-is_retired_kid_example : is_retired_kid 1 swept_old.signing_keys ≡ true
Reach-is_retired_kid_example =
    Reach-is_retired_kid default_settings identity 1 {s = old_keys} {s' = swept_old}
      (KeyReach.next KeyReach.here (KeyStep.retire_expired (codes "admin") 20 20 refl)) refl

handles :
    handle default_settings identity 20 20
      (material 3)
      access
      alice_session
      retire_expired_keys
      key_store
    ≡ ok (retired_count 0, swept)
unfolding handle require_key_admin by_route admin_retire_expired_oidc_keys parse_uuid is_authorized
    get_active_user_permissions retire_expired_signing_keys
handles = refl

handle-IsKeyAdmin_example :
    (actor : Text) × IsKeyAdmin 20 access alice_session actor
    × KeyStep default_settings identity key_store swept
handle-IsKeyAdmin_example =
    handle-IsKeyAdmin default_settings identity 20 20 (material 3) access alice_session
      retire_expired_keys key_store swept (retired_count 0) handles

abbrev encode : Token → Header → Claims → Token
encode key header claims = key + claims.exp

abbrev signed : Token × KeyStore
signed =
    returned
      (encode_id_token default_settings identity identity encode 10 (material 3) 10 100 4 key_store)
      (0, key_store)

signs :
    encode_id_token default_settings identity identity encode 10 (material 3) 10 100 4 key_store
    ≡ ok (signed.0, signed.1)
unfolding encode_id_token get_active_jwt_config ensure_active_signing_key
signs = refl

abbrev jwks_then : List PublicJwk × KeyStore
jwks_then =
    returned (get_jwks default_settings identity 20 (material 4) 20 signed.1) ([], key_store)

publishes_then :
    get_jwks default_settings identity 20 (material 4) 20 signed.1 ≡ ok (jwks_then.0, jwks_then.1)
unfolding get_jwks ensure_active_signing_key encode_id_token get_active_jwt_config
    audit_token_signed
publishes_then = refl

encode_id_token-get_jwks_example :
    (config : JwtConfig) × (signed.0
      ≡ encoded default_settings identity identity encode 100 config 4)
    × (1 ≤ count_where (has_jwk_kid (get_encode_header config).kid) jwks_then.0)
encode_id_token-get_jwks_example =
    encode_id_token-get_jwks default_settings identity identity encode 10 10 20 20 (material 3)
      (material 4) 100 4 signed.0 jwks_then.0 key_store signed.1 jwks_then.1 (refl, (refl, tt))
      signs publishes_then

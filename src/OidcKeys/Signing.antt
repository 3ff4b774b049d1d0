-- ===== src/OidcKeys/Signing.antt =====
-- The key that signs, and the key set.
use mathlib.Core.Path.{subst}
use satoidc.Common.{
  ◌≤◌, ◌≡◌, refl, Bool, ◌&&◌, some, none, List, [], ◌∷◌, ◌++◌, ok, arith, inl, inr, map, ◌==◌,
  >>=-ok, ◌∙◌, sym,
}
use satoidc.Common.Rows.{All, first_where, count_where}
use satoidc.Common.Rows.Every.{All-append}
use satoidc.Common.Rows.Counting.{count_where-rows_where}
use satoidc.Models.{Token, Instant, active, PublicJwk, OidcSigningKey}
use satoidc.Settings.{Settings}
use satoidc.OidcKeys.Store.{
  KeyStore, KeyMaterial, has_kid, is_publishable, is_active, ensure_active_signing_key,
}
use satoidc.OidcKeys.Publish.{JwtConfig, published_keys, get_active_jwt_config, get_jwks}
use satoidc.OidcKeys.Effects.{ensure-Added}
use satoidc.OidcKeys.Sorted.{count_where-order_by_created_at}

-- The public half of each row carries the row's kid.
abbrev pub HasPublicKids : List OidcSigningKey → Type 0
HasPublicKids = All (λ k. k.public_jwk.kid ≡ k.kid)

abbrev pub has_jwk_kid : Token → PublicJwk → Bool
has_jwk_kid kid j = j.kid == kid

first_active-append :
    (row : OidcSigningKey) (keys : List OidcSigningKey)
    → first_where is_active keys ≡ none
    → row.status ≡ active
    → first_where is_active (keys ++ row ∷ []) ≡ some row
first_active-append row [] h st = ground arith
first_active-append row (k ∷ ks) h st = ground (arith, first_active-append row ks)

-- The key that is ensured is the first active one of the store.
pub ensure_finds_active :
    (env : Settings) (encrypt : Token → Token) (db_now now : Instant) (m : KeyMaterial)
    (k : OidcSigningKey) (s s' : KeyStore)
    → ensure_active_signing_key env encrypt db_now m now s ≡ ok (k, s')
    → first_where is_active s'.signing_keys ≡ some k
ensure_finds_active env encrypt db_now now m k s s' h =
    elim (ensure-Added env encrypt db_now now m k s s' h) [
      | inl (found, same) ↦ rw same found
      | inr (idle, a) ↦ rw a.rows (first_active-append k s.signing_keys idle a.status)
    ]

count_jwk_map :
    (kid : Token) (keys : List OidcSigningKey)
    → HasPublicKids keys
    → count_where (λ k. is_publishable k && has_jwk_kid kid k.public_jwk) keys
      ≡ count_where (λ k. is_publishable k && has_kid kid k) keys
count_jwk_map kid [] h = refl
count_jwk_map kid (k ∷ ks) h = ground (arith, count_jwk_map kid ks h.1)

count_where-map :
    (q : PublicJwk → Bool) (keys : List OidcSigningKey)
    → count_where q (map (λ k. k.public_jwk) keys) ≡ count_where (λ k. q k.public_jwk) keys
count_where-map q [] = refl
count_where-map q (k ∷ ks) = rw (count_where-map q ks)

count_signing :
    (keys : List OidcSigningKey) (k : OidcSigningKey)
    → first_where is_active keys ≡ some k
    → 1 ≤ count_where (λ j. is_publishable j && has_kid k.kid j) keys
count_signing [] k h = cc
count_signing (j ∷ js) k h = ground (arith, count_signing js k)

pub ensure-HasPublicKids :
    (env : Settings) (encrypt : Token → Token) (db_now now : Instant) (m : KeyMaterial)
    (k : OidcSigningKey) (s s' : KeyStore)
    → ensure_active_signing_key env encrypt db_now m now s ≡ ok (k, s')
    → HasPublicKids s.signing_keys
    → HasPublicKids s'.signing_keys
ensure-HasPublicKids env encrypt db_now now m k s s' h p =
    elim (ensure-Added env encrypt db_now now m k s s' h) [
      | inl (found, same) ↦ rw same p
      | inr (idle, a) ↦ rw a.rows (
          All-append (λ j. j.public_jwk.kid ≡ j.kid) s.signing_keys (k ∷ []) p
            (a.public_kid ∙ sym a.kid, tt))
    ]

-- While there is an active key, to ensure one changes nothing.
pub ensure_idle :
    (env : Settings) (encrypt : Token → Token) (db_now now : Instant) (m : KeyMaterial)
    (k a : OidcSigningKey) (s s' : KeyStore)
    → first_where is_active s.signing_keys ≡ some a
    → ensure_active_signing_key env encrypt db_now m now s ≡ ok (k, s')
    → s' ≡ s
ensure_idle env encrypt db_now now m k a s s' found h =
    elim (ensure-Added env encrypt db_now now m k s s' h) [
      | inl (again, same) ↦ same
      | inr (idle, added) ↦ cc
    ]

-- The public keys published from a store whose active key is `k`.
count_jwk-published :
    (s : KeyStore) (k : OidcSigningKey)
    → first_where is_active s.signing_keys ≡ some k
    → HasPublicKids s.signing_keys
    → 1 ≤ count_where (has_jwk_kid k.kid) (map (λ j. j.public_jwk) (published_keys s))
count_jwk-published s k found p =
    rw (count_where-map, count_where-order_by_created_at, count_where-rows_where)
      (rw (count_jwk_map k.kid s.signing_keys p) (count_signing s.signing_keys k found))

-- The configuration names the key that is active afterwards.
pub get_active_jwt_config-active :
    (env : Settings) (encrypt decrypt : Token → Token) (db_now now : Instant) (m : KeyMaterial)
    (config : JwtConfig) (s s' : KeyStore)
    → HasPublicKids s.signing_keys
    → get_active_jwt_config env encrypt decrypt db_now m now s ≡ ok (config, s')
    → (k : OidcSigningKey) × (first_where is_active s'.signing_keys ≡ some k)
      × (config.kid ≡ k.kid)
      × HasPublicKids s'.signing_keys
unfolding get_active_jwt_config
get_active_jwt_config-active env encrypt decrypt db_now now m config s s' p g =
    let a = >>=-ok (ensure_active_signing_key env encrypt db_now m now s) _ g in
    let same_store : a.0.1 ≡ s' = ground arith in
    let found = rw same_store at (ensure_finds_active env encrypt db_now now m a.0.0 s a.0.1 a.1) in
    let kids =
      rw same_store at (ensure-HasPublicKids env encrypt db_now now m a.0.0 s a.0.1 a.1 p) in
    let same_kid : config.kid ≡ a.0.0.kid = ground arith in (a.0.0, found, same_kid, kids)

-- The key set that is published while a key is active has it.
pub get_jwks-active :
    (env : Settings) (encrypt : Token → Token) (db_now now : Instant) (m : KeyMaterial)
    (jwks : List PublicJwk) (k : OidcSigningKey) (s s' : KeyStore)
    → first_where is_active s.signing_keys ≡ some k
    → HasPublicKids s.signing_keys
    → get_jwks env encrypt db_now m now s ≡ ok (jwks, s')
    → 1 ≤ count_where (has_jwk_kid k.kid) jwks
unfolding get_jwks
get_jwks-active env encrypt db_now now m jwks k s s' found kids h =
    let b = >>=-ok (ensure_active_signing_key env encrypt db_now m now s) _ h in
    let idle = ensure_idle env encrypt db_now now m b.0.0 k s b.0.1 found b.1 in
    let same_jwks : jwks ≡ map (λ j. j.public_jwk) (published_keys s) =
      subst (λ t. jwks ≡ map (λ j. j.public_jwk) (published_keys t)) idle (ground arith) in
    rw same_jwks (count_jwk-published s k found kids)

-- The key that signs the next token is in the key set that is then published, under its kid, where every
-- row's public half carries the row's kid.
pub signing_key_is_published :
    (env : Settings) (encrypt decrypt : Token → Token) (db_now now db_later later : Instant)
    (m m' : KeyMaterial) (config : JwtConfig) (jwks : List PublicJwk) (s s' s'' : KeyStore)
    → HasPublicKids s.signing_keys
    → get_active_jwt_config env encrypt decrypt db_now m now s ≡ ok (config, s')
    → get_jwks env encrypt db_later m' later s' ≡ ok (jwks, s'')
    → 1 ≤ count_where (has_jwk_kid config.kid) jwks
signing_key_is_published env encrypt decrypt db_now now db_later later m m' config jwks s s' s'' p g
      h =
    let (k, found, same_kid, kids) =
      get_active_jwt_config-active env encrypt decrypt db_now now m config s s' p g in
    rw same_kid (get_jwks-active env encrypt db_later later m' jwks k s' s'' found kids h)

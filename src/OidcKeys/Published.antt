-- ===== src/OidcKeys/Published.antt =====
-- How long a key that has signed tokens stays published.
use satoidc.Common.{◌≤◌, ◌≡◌, Bool, not, ◌&&◌, some, List, [], ◌∷◌, ok, arith, ap}
use satoidc.Common.Texts.{Text}
use satoidc.Common.Rows.{first_where, count_where, update_where}
use satoidc.Common.Rows.Counting.{
  count_where-append, count_where-le-update_first, count_where-le-update_where, count_where_mono,
  count_where-rows_where,
}
use satoidc.Models.{Token, Instant, active, OidcSigningKey}
use satoidc.Settings.{Settings}
use satoidc.OidcKeys.Store.{KeyStore, KeyMaterial, has_kid, is_publishable}
use satoidc.OidcKeys.Lifecycle.{
  rotate_signing_key, retire_expired_signing_keys, retired_after, is_expired_key, retire,
  is_demoted, demote, promote, activate_rows,
}
use satoidc.OidcKeys.Publish.{published_keys}
use satoidc.OidcKeys.Effects.{rotate-Rotated}
use satoidc.OidcKeys.Sorted.{count_where-order_by_created_at}

-- The key is published, and a retirement at that time would leave it alone.
abbrev is_kept : Instant → Token → OidcSigningKey → Bool
is_kept at kid k = has_kid kid k && (is_publishable k && not (is_expired_key at k))

-- Activation of a key leaves every other key of the store published for the retention time.
count_kept-activate_rows :
    (env : Settings) (now at : Instant) (new kid : Token) (keys : List OidcSigningKey)
    → at ≤ retired_after env now
    → count_where (is_kept at kid) keys
      ≤ count_where (is_kept at kid) (activate_rows env now new keys)
unfolding activate_rows
count_kept-activate_rows env now at new kid keys h = omega (
  arith,
  count_where-le-update_first (is_kept at kid) (has_kid new) (promote now)
      (update_where (is_demoted new) (demote env now) keys) (λ k named kept. ground arith),
  count_where-le-update_where (is_kept at kid) (is_demoted new) (demote env now) keys
      (λ k demoted kept. ground arith),
)

count_kept-retire :
    (at : Instant) (kid : Token) (keys : List OidcSigningKey)
    → count_where (is_kept at kid) keys
      ≤ count_where (is_kept at kid) (update_where (is_expired_key at) (retire at) keys)
count_kept-retire at kid keys =
    count_where-le-update_where (is_kept at kid) (is_expired_key at) (retire at) keys
      (λ k expired kept. ground arith)

-- A kept key is among the published ones.
count_kept-published :
    (at : Instant) (kid : Token) (s : KeyStore)
    → count_where (is_kept at kid) s.signing_keys ≤ count_where (has_kid kid) (published_keys s)
count_kept-published at kid s =
    rw (count_where-order_by_created_at, count_where-rows_where)
      (count_where_mono (is_kept at kid) (λ k. is_publishable k && has_kid kid k) s.signing_keys
        (λ k kept. ground arith))

-- An active key is kept, whatever the time.
count_kept-active :
    (at : Instant) (kid : Token) (keys : List OidcSigningKey) (k : OidcSigningKey)
    → first_where (has_kid kid) keys ≡ some k
    → k.status ≡ active
    → 1 ≤ count_where (is_kept at kid) keys
count_kept-active at kid [] k found st = cc
count_kept-active at kid (j ∷ js) k found st = ground (arith, count_kept-active at kid js k)

-- A key that is active when the keys are rotated is still published after a retirement at any time up
-- to the token lifetime, the cache lifetime and the margin after the rotation.
pub published-retire-rotate :
    (env : Settings) (encrypt : Token → Token) (db_now now at : Instant) (m : KeyMaterial)
    (actor actor' : Text) (new k : OidcSigningKey) (kid : Token) (s s' : KeyStore)
    → first_where (has_kid kid) s.signing_keys ≡ some k
    → k.status ≡ active
    → rotate_signing_key env encrypt db_now m actor now s ≡ ok (new, s')
    → at ≤ retired_after env now
    → 1
      ≤ count_where
          (has_kid kid)
          (published_keys (retire_expired_signing_keys db_now actor' at s').1)
unfolding retire_expired_signing_keys
published-retire-rotate env encrypt db_now now at m actor actor' new k kid s s' found st h early =
    let r = rotate-Rotated env encrypt db_now now m actor new s s' h in
    omega (
      arith,
      count_kept-active at kid s.signing_keys k found st,
      count_where-append (is_kept at kid) s.signing_keys (r.new_key ∷ []),
      ap (count_where (is_kept at kid)) r.added.rows,
      count_kept-activate_rows env now at m.kid kid r.mid.signing_keys early,
      ap (count_where (is_kept at kid)) r.activated.rows,
      count_kept-retire at kid s'.signing_keys,
      count_kept-published at kid (retire_expired_signing_keys db_now actor' at s').1,
    )

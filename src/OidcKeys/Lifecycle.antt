-- ===== src/OidcKeys/Lifecycle.antt =====
-- `_retired_after`, `activate_signing_key`, `rotate_signing_key` and `retire_expired_signing_keys` of
-- satoidc/satoidc/auth/oidc_keys.py.
use satoidc.Common.{
  ℕ, ◌+◌, Bool, false, not, ◌&&◌, Option, none, some, List, [], ◌∷◌, ◌++◌, map, Outcome, ok, raised,
  ◌>>=◌, ltb, if◌then◌else◌,
}
use satoidc.Common.Rows.{first_where, rows_where, update_first, update_where, length}
use satoidc.Common.Texts.{Text}
use satoidc.Models.{
  Token, Instant, seconds, active, validating, retired, OidcSigningKey, activated,
  demoted_to_validating, retired_event, OidcSigningKeyAuditEvent,
}
use satoidc.Settings.{Settings}
use satoidc.OidcKeys.Store.{
  KeyStore, KeyError, unknown_key, retired_key, KeyMaterial, is_active, is_retired, has_kid,
  audit_entry, create_signing_key,
}

abbrev pub retention_seconds : Settings → ℕ
retention_seconds env =
    env.oauth2_token_expires_in + env.oidc_jwks_cache_ttl_seconds
    + env.oidc_key_retention_margin_seconds

abbrev pub retired_after : Settings → Instant → Instant
retired_after env rotated_at = rotated_at + seconds (retention_seconds env)

abbrev pub demote : Settings → Instant → OidcSigningKey → OidcSigningKey
demote env now k = record k {
  status = validating;
  validating_since = some now;
  retired_after = some (retired_after env now);
}

abbrev pub promote : Instant → OidcSigningKey → OidcSigningKey
promote now k = record k {
  status = active;
  activated_at = some now;
  validating_since = none;
  retired_at = none;
  retired_after = none;
}

-- The active keys other than the one to activate: the loop skips that one.
abbrev pub is_demoted : Token → OidcSigningKey → Bool
is_demoted kid k = is_active k && not (has_kid kid k)

unfoldable pub activate_rows :
    Settings → Instant → Token → List OidcSigningKey → List OidcSigningKey
activate_rows env now kid keys =
    update_first (has_kid kid) (promote now) (update_where (is_demoted kid) (demote env now) keys)

abbrev demotion_entries :
    Token → Text → Instant → List OidcSigningKey → List OidcSigningKeyAuditEvent
demotion_entries kid actor at keys =
    map (λ k. audit_entry demoted_to_validating k.kid actor at) (rows_where (is_demoted kid) keys)

module _ (env : Settings) (db_now : Instant) where
  activate_found :
      Token
      → Text
      → Instant
      → KeyStore
      → Option OidcSigningKey
      → Outcome KeyError (OidcSigningKey × KeyStore)
  unfolding activate_rows
  activate_found kid actor now s none = raised unknown_key
  activate_found kid actor now s (some key) =
      if is_retired key
      then raised retired_key
      else ok (
        promote now key,
        record {
          signing_keys = activate_rows env now kid s.signing_keys;
          audit_events =
              (s.audit_events ++ demotion_entries kid actor db_now s.signing_keys)
              ++ audit_entry activated kid actor db_now ∷ [];
        },
      )

  unfoldable pub activate_signing_key :
      Token → Text → Instant → KeyStore → Outcome KeyError (OidcSigningKey × KeyStore)
  unfolding activate_found
  activate_signing_key kid actor now s =
      activate_found kid actor now s (first_where (has_kid kid) s.signing_keys)

-- The columns that select a key for retirement.
abbrev pub is_expired_key : Instant → OidcSigningKey → Bool
is_expired_key now k = elim k.status [
  | active ↦ false
  | retired ↦ false
  | validating ↦ elim k.retired_after [ none ↦ false | some t ↦ ltb t now ]
]

abbrev pub retire : Instant → OidcSigningKey → OidcSigningKey
retire now k = record k { status = retired; retired_at = some now }

unfoldable pub retire_expired_signing_keys : Instant → Text → Instant → KeyStore → ℕ × KeyStore
retire_expired_signing_keys db_now actor now s =
    let expired_keys = rows_where (is_expired_key now) s.signing_keys in
    (
      length expired_keys,
      record {
        signing_keys = update_where (is_expired_key now) (retire now) s.signing_keys;
        audit_events =
            s.audit_events ++ map (λ k. audit_entry retired_event k.kid actor db_now) expired_keys;
      },
    )

unfoldable pub rotate_signing_key :
    Settings
    → (Token → Token)
    → Instant
    → KeyMaterial
    → Text
    → Instant
    → KeyStore
    → Outcome KeyError (OidcSigningKey × KeyStore)
unfolding create_signing_key activate_signing_key
rotate_signing_key env encrypt db_now m actor now s = do
  (new_key, s') ← create_signing_key env encrypt db_now m validating actor now s
  activate_signing_key env db_now new_key.kid actor now s'

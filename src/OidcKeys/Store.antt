-- ===== src/OidcKeys/Store.antt =====
-- `_audit`, `_generate_key_row`, `create_signing_key` and `ensure_active_signing_key` of
-- satoidc/satoidc/auth/oidc_keys.py.
-- Parameters: `KeyMaterial` is what `jwk.generate_key` returns, `encrypt` is Fernet's encryption under
-- the configured secret, `now` is the clock of the call and `db_now` that of the database.
-- `json.dumps` and `json.loads` of a public key cancel, so the column holds the key itself.
use satoidc.Common.{
  Bool, true, false, Option, none, some, List, [], ◌∷◌, ◌++◌, Outcome, ok, raised, ◌>>=◌, ◌==◌,
  if◌then◌else◌, is_some,
}
use satoidc.Common.Rows.{first_where}
use satoidc.Common.Texts.{Text, codes}
use satoidc.Models.{
  Token, Instant, KeyStatus, active, validating, retired, OidcSigningKey, KeyEvent, created,
  activated, token_signed, OidcSigningKeyAuditEvent,
}
use satoidc.Settings.{Settings}

pub record KeyStore : Type 0 where
  pub signing_keys : List OidcSigningKey
  pub audit_events : List OidcSigningKeyAuditEvent

pub data KeyError : Type 0 where
  unknown_key retired_key duplicate_kid : KeyError

-- What `jwk.generate_key("RSA", 2048, private=True, auto_kid=True)` returns.
pub record KeyMaterial : Type 0 where
  pub kid : Token
  pub material : Token
  pub private_jwk : Token

abbrev pub is_active : OidcSigningKey → Bool
is_active k = elim k.status [ active ↦ true | validating ↦ false | retired ↦ false ]

-- `status in PUBLISHABLE_KEY_STATUSES`
abbrev pub is_publishable : OidcSigningKey → Bool
is_publishable k = elim k.status [ active ↦ true | validating ↦ true | retired ↦ false ]

abbrev pub is_retired : OidcSigningKey → Bool
is_retired k = elim k.status [ active ↦ false | validating ↦ false | retired ↦ true ]

abbrev pub has_kid : Token → OidcSigningKey → Bool
has_kid kid k = k.kid == kid

abbrev pub audit_entry : KeyEvent → Token → Text → Instant → OidcSigningKeyAuditEvent
audit_entry event kid actor at = record {
  event = event;
  kid = kid;
  actor = actor;
  occurred_at = at;
}

-- `_audit`
abbrev pub audit : KeyEvent → Token → Text → Instant → KeyStore → KeyStore
audit event kid actor at s = record s {
  audit_events = s.audit_events ++ audit_entry event kid actor at ∷ [];
}

unfoldable pub audit_token_signed : Instant → Token → KeyStore → KeyStore
audit_token_signed db_now kid s = audit token_signed kid (codes "system") db_now s

-- The commit of a new key: the column `kid` is unique.
abbrev pub add_key : OidcSigningKey → KeyStore → Outcome KeyError KeyStore
add_key k s =
    if is_some (first_where (has_kid k.kid) s.signing_keys)
    then raised duplicate_kid
    else ok (record s { signing_keys = s.signing_keys ++ k ∷ [] })

module _ (env : Settings) (encrypt : Token → Token) (db_now : Instant) where
  abbrev pub generate_key_row : KeyMaterial → KeyStatus → OidcSigningKey
  generate_key_row m status = record {
    kid = m.kid;
    public_jwk = record {
      kid = m.kid;
      material = m.material;
      alg = env.oauth2_jwt_alg;
      use_for = codes "sig";
    };
    private_jwk_encrypted = encrypt m.private_jwk;
    alg = env.oauth2_jwt_alg;
    kty = codes "RSA";
    use_for = codes "sig";
    status = status;
    backend_reference = some (codes "database");
    activated_at = none;
    validating_since = none;
    retired_at = none;
    retired_after = none;
    created_at = db_now;
  }

  unfoldable pub create_signing_key :
      KeyMaterial
      → KeyStatus
      → Text
      → Instant
      → KeyStore
      → Outcome KeyError (OidcSigningKey × KeyStore)
  create_signing_key m active actor now s =
      let key = record (generate_key_row m active) { activated_at = some now } in
      do
        s' ← add_key key s
        ok (key, audit activated key.kid actor db_now (audit created key.kid actor db_now s'))
  create_signing_key m status actor now s =
      let key = generate_key_row m status in
      do s' ← add_key key s; ok (key, audit created key.kid actor db_now s')

  abbrev or_create :
      KeyMaterial
      → Instant
      → KeyStore
      → Option OidcSigningKey
      → Outcome KeyError (OidcSigningKey × KeyStore)
  or_create m now s (some key) = ok (key, s)
  or_create m now s none = create_signing_key m active (codes "system") now s

  unfoldable pub ensure_active_signing_key :
      KeyMaterial → Instant → KeyStore → Outcome KeyError (OidcSigningKey × KeyStore)
  ensure_active_signing_key m now s = or_create m now s (first_where is_active s.signing_keys)

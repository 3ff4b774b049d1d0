-- ===== src/OidcKeys/Steps.antt =====
-- The operations of the key service as steps, in any order and from any caller.
use satoidc.Common.{◌+◌, ◌≤◌, ◌≡◌, [], ◌∷◌, ok, arith, inl, inr}
use satoidc.Common.Texts.{Text}
use satoidc.Common.Rows.{count_where}
use satoidc.Common.Rows.Counting.{count_where-first_none, count_where-update_where_le}
use satoidc.Models.{Token, Instant, KeyStatus, active, validating, OidcSigningKey}
use satoidc.Settings.{Settings}
use satoidc.OidcKeys.Store.{
  KeyStore, KeyMaterial, is_active, has_kid, create_signing_key, ensure_active_signing_key,
  audit_token_signed,
}
use satoidc.OidcKeys.Lifecycle.{
  activate_signing_key, rotate_signing_key, retire_expired_signing_keys, is_expired_key, retire,
}
use satoidc.OidcKeys.Effects.{
  Added, Activated, create-Added, ensure-Added, activate-Activated, rotate-Rotated,
}
use satoidc.OidcKeys.Active.{IsValid, IsValid-append, activate_rows-IsValid}

module _ (env : Settings) (encrypt : Token → Token) where
  pub data KeyStep (s : KeyStore) : KeyStore → Type 0 where
    create :
        (m : KeyMaterial) (actor : Text) (now db_now : Instant) (k : OidcSigningKey) {s' : KeyStore}
        → create_signing_key env encrypt db_now m validating actor now s ≡ ok (k, s')
        → KeyStep s s'
    ensure :
        (m : KeyMaterial) (now db_now : Instant) (k : OidcSigningKey) {s' : KeyStore}
        → ensure_active_signing_key env encrypt db_now m now s ≡ ok (k, s')
        → KeyStep s s'
    activate :
        (kid : Token) (actor : Text) (now db_now : Instant) (k : OidcSigningKey) {s' : KeyStore}
        → activate_signing_key env db_now kid actor now s ≡ ok (k, s')
        → KeyStep s s'
    rotate :
        (m : KeyMaterial) (actor : Text) (now db_now : Instant) (k : OidcSigningKey) {s' : KeyStore}
        → rotate_signing_key env encrypt db_now m actor now s ≡ ok (k, s')
        → KeyStep s s'
    retire_expired :
        (actor : Text) (now db_now : Instant) {s' : KeyStore}
        → (retire_expired_signing_keys db_now actor now s).1 ≡ s'
        → KeyStep s s'
    sign :
        (kid : Token) (db_now : Instant) {s' : KeyStore}
        → audit_token_signed db_now kid s ≡ s'
        → KeyStep s s'

  pub data KeyReach (s : KeyStore) : KeyStore → Type 0 where
    here : KeyReach s s
    next : {t u : KeyStore} → KeyReach s t → KeyStep t u → KeyReach s u

-- Adding a key that is not a second active one keeps the invariant.
Added-IsValid :
    (m : KeyMaterial) (at : KeyStatus) (k : OidcSigningKey) (s s' : KeyStore)
    → Added m at k s s'
    → count_where is_active s.signing_keys + count_where is_active (k ∷ []) ≤ 1
    → IsValid s.signing_keys
    → IsValid s'.signing_keys
Added-IsValid m at k s s' a room v =
    rw a.rows (IsValid-append k s.signing_keys v (rw a.kid a.fresh) room)

Activated-IsValid :
    (env : Settings) (now : Instant) (kid : Token) (k : OidcSigningKey) (s s' : KeyStore)
    → Activated env now kid k s s'
    → IsValid s.signing_keys
    → IsValid s'.signing_keys
Activated-IsValid env now kid k s s' a v =
    rw a.rows (activate_rows-IsValid env now kid s.signing_keys a.old a.found v)

create-IsValid :
    (m : KeyMaterial) (k : OidcSigningKey) (s s' : KeyStore)
    → Added m validating k s s'
    → IsValid s.signing_keys
    → IsValid s'.signing_keys
create-IsValid m k s s' a v =
    Added-IsValid m validating k s s' a (ground (arith, v.one_active, a.status)) v

retire_expired-IsValid :
    (actor : Text) (now db_now : Instant) (s : KeyStore)
    → IsValid s.signing_keys
    → IsValid (retire_expired_signing_keys db_now actor now s).1.signing_keys
unfolding retire_expired_signing_keys
retire_expired-IsValid actor now db_now s v = record {
  kids = λ j. omega (
    arith,
    v.kids j,
    count_where-update_where_le (has_kid j) (is_expired_key now) (retire now) s.signing_keys
        (λ k e h. h),
  );
  one_active = omega (
    arith,
    v.one_active,
    count_where-update_where_le is_active (is_expired_key now) (retire now) s.signing_keys
        (λ k e h. ground arith),
  );
}

module _ (env : Settings) (encrypt : Token → Token) where
  ensure-IsValid :
      (m : KeyMaterial) (now db_now : Instant) (k : OidcSigningKey) (s s' : KeyStore)
      → ensure_active_signing_key env encrypt db_now m now s ≡ ok (k, s')
      → IsValid s.signing_keys
      → IsValid s'.signing_keys
  ensure-IsValid m now db_now k s s' h v = elim (ensure-Added env encrypt db_now now m k s s' h) [
    | inl (found, same) ↦ rw same v
    | inr (none_active, a) ↦
        Added-IsValid m active k s s' a
          (ground (arith, count_where-first_none is_active s.signing_keys none_active)) v
  ]

  rotate-IsValid :
      (m : KeyMaterial) (actor : Text) (now db_now : Instant) (k : OidcSigningKey) (s s' : KeyStore)
      → rotate_signing_key env encrypt db_now m actor now s ≡ ok (k, s')
      → IsValid s.signing_keys
      → IsValid s'.signing_keys
  rotate-IsValid m actor now db_now k s s' h v =
      let r = rotate-Rotated env encrypt db_now now m actor k s s' h in
      Activated-IsValid env now m.kid k r.mid s' r.activated
        (create-IsValid m r.new_key s r.mid r.added v)

  KeyStep-IsValid :
      {s s' : KeyStore}
      → KeyStep env encrypt s s'
      → IsValid s.signing_keys
      → IsValid s'.signing_keys
  KeyStep-IsValid {s} {s'} (KeyStep.create m actor now db_now k h) v =
      create-IsValid m k s s' (create-Added env encrypt db_now now m validating actor k s s' h) v
  KeyStep-IsValid {s} {s'} (KeyStep.ensure m now db_now k h) v =
      ensure-IsValid m now db_now k s s' h v
  KeyStep-IsValid {s} {s'} (KeyStep.activate kid actor now db_now k h) v =
      Activated-IsValid env now kid k s s' (activate-Activated env db_now now kid actor k s s' h) v
  KeyStep-IsValid {s} {s'} (KeyStep.rotate m actor now db_now k h) v =
      rotate-IsValid m actor now db_now k s s' h v
  KeyStep-IsValid {s} (KeyStep.retire_expired actor now db_now h) v =
      rw (← h) (retire_expired-IsValid actor now db_now s v)
  KeyStep-IsValid {s} (KeyStep.sign kid db_now h) v = rw (← h) (unfold audit_token_signed in v)

  -- Whatever operations run, in whatever order: if kids are unique and at most one key is active to
  -- begin with, so it is in every key store that is reached.
  pub KeyReach-IsValid :
      {s s' : KeyStore}
      → KeyReach env encrypt s s'
      → IsValid s.signing_keys
      → IsValid s'.signing_keys
  KeyReach-IsValid KeyReach.here v = v
  KeyReach-IsValid (KeyReach.next r st) v = KeyStep-IsValid st (KeyReach-IsValid r v)

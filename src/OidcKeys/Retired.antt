-- ===== src/OidcKeys/Retired.antt =====
-- The status of the key of a kid, once it is retired.
use satoidc.Common.{
  ◌≡◌, Bool, true, false, some, List, [], ◌∷◌, ◌++◌, arith, inl, inr, if◌then◌else◌,
}
use satoidc.Common.Rows.{first_where, update_where}
use satoidc.Models.{Token, Instant, validating, OidcSigningKey}
use satoidc.Settings.{Settings}
use satoidc.OidcKeys.Store.{KeyStore, is_retired, has_kid, audit_token_signed}
use satoidc.OidcKeys.Lifecycle.{
  activate_rows, is_expired_key, retire, is_demoted, demote, retire_expired_signing_keys,
}
use satoidc.OidcKeys.Effects.{create-Added, ensure-Added, activate-Activated, rotate-Rotated}
use satoidc.OidcKeys.Steps.{KeyStep, KeyReach}

-- The row that a kid names is retired.
abbrev pub is_retired_kid : Token → List OidcSigningKey → Bool
is_retired_kid kid [] = false
is_retired_kid kid (k ∷ ks) = if has_kid kid k then is_retired k else is_retired_kid kid ks

is_retired_kid-append :
    (kid : Token) (keys : List OidcSigningKey) (row : OidcSigningKey)
    → is_retired_kid kid keys ≡ true
    → is_retired_kid kid (keys ++ row ∷ []) ≡ true
is_retired_kid-append kid [] row h = cc
is_retired_kid-append kid (k ∷ ks) row h = ground (arith, is_retired_kid-append kid ks row)

is_retired_kid-demoted :
    (env : Settings) (now : Instant) (kid j : Token) (keys : List OidcSigningKey)
    → is_retired_kid j keys ≡ true
    → is_retired_kid j (update_where (is_demoted kid) (demote env now) keys) ≡ true
is_retired_kid-demoted env now kid j [] h = cc
is_retired_kid-demoted env now kid j (k ∷ ks) h =
    ground (arith, is_retired_kid-demoted env now kid j ks)

is_retired_kid-activate_rows :
    (env : Settings) (now : Instant) (kid j : Token) (keys : List OidcSigningKey)
    (old : OidcSigningKey)
    → first_where (has_kid kid) keys ≡ some old
    → is_retired old ≡ false
    → is_retired_kid j keys ≡ true
    → is_retired_kid j (activate_rows env now kid keys) ≡ true
unfolding activate_rows
is_retired_kid-activate_rows env now kid j [] old found live h = cc
is_retired_kid-activate_rows env now kid j (k ∷ ks) old found live h = ground (
  arith,
  is_retired_kid-demoted env now kid j ks,
  is_retired_kid-activate_rows env now kid j ks old,
)

is_retired_kid-retire :
    (now : Instant) (j : Token) (keys : List OidcSigningKey)
    → is_retired_kid j keys ≡ true
    → is_retired_kid j (update_where (is_expired_key now) (retire now) keys) ≡ true
is_retired_kid-retire now j [] h = cc
is_retired_kid-retire now j (k ∷ ks) h = ground (arith, is_retired_kid-retire now j ks)

module _ (env : Settings) (encrypt : Token → Token) (j : Token) where
  Step-is_retired_kid :
      {s s' : KeyStore}
      → KeyStep env encrypt s s'
      → is_retired_kid j s.signing_keys ≡ true
      → is_retired_kid j s'.signing_keys ≡ true
  unfolding retire_expired_signing_keys audit_token_signed
  Step-is_retired_kid {s} {s'} (KeyStep.create m actor now db_now k e) h =
      let a = create-Added env encrypt db_now now m validating actor k s s' e in
      rw a.rows (is_retired_kid-append j s.signing_keys k h)
  Step-is_retired_kid {s} {s'} (KeyStep.ensure m now db_now k e) h =
      elim (ensure-Added env encrypt db_now now m k s s' e) [
        | inl (found, same) ↦ rw same h
        | inr (idle, a) ↦ rw a.rows (is_retired_kid-append j s.signing_keys k h)
      ]
  Step-is_retired_kid {s} {s'} (KeyStep.activate kid actor now db_now k e) h =
      let a = activate-Activated env db_now now kid actor k s s' e in
      rw a.rows
        (is_retired_kid-activate_rows env now kid j s.signing_keys a.old a.found a.not_retired h)
  Step-is_retired_kid {s} {s'} (KeyStep.rotate m actor now db_now k e) h =
      let r = rotate-Rotated env encrypt db_now now m actor k s s' e in
      let a = r.activated in
      rw a.rows (
        is_retired_kid-activate_rows env now m.kid j r.mid.signing_keys a.old a.found a.not_retired
          (rw r.added.rows (is_retired_kid-append j s.signing_keys r.new_key h)))
  Step-is_retired_kid {s} (KeyStep.retire_expired actor now db_now e) h =
      rw (← e) (is_retired_kid-retire now j s.signing_keys h)
  Step-is_retired_kid (KeyStep.sign kid db_now e) h = rw (← e) h

  -- A kid whose key is retired has a retired key in every key store that is reached from there,
  -- whatever operations run, in whatever order.
  pub Reach-is_retired_kid :
      {s s' : KeyStore}
      → KeyReach env encrypt s s'
      → is_retired_kid j s.signing_keys ≡ true
      → is_retired_kid j s'.signing_keys ≡ true
  Reach-is_retired_kid KeyReach.here h = h
  Reach-is_retired_kid (KeyReach.next r st) h = Step-is_retired_kid st (Reach-is_retired_kid r h)

-- ===== src/OidcKeys/Effects.antt =====
-- What each operation on the keys has done to the rows when it returns.
use mathlib.Core.Path.{subst}
use satoidc.Common.{
  ◌≡◌, false, some, none, [], ◌∷◌, ◌++◌, ok, arith, ◌⊎◌, inl, inr, Option-cases, >>=-ok,
}
use satoidc.Common.Texts.{Text}
use satoidc.Common.Rows.{first_where}
use satoidc.Models.{Token, Instant, KeyStatus, active, validating, retired, OidcSigningKey}
use satoidc.Settings.{Settings}
use satoidc.OidcKeys.Store.{
  KeyStore, KeyMaterial, is_active, is_retired, has_kid, create_signing_key,
  ensure_active_signing_key,
}
use satoidc.OidcKeys.Lifecycle.{activate_signing_key, activate_rows, promote, rotate_signing_key}

-- A key has been added under a kid that was free.
pub record Added (m : KeyMaterial) (at : KeyStatus) (k : OidcSigningKey) (s s' : KeyStore)
    : Type 0 where
  pub fresh : first_where (has_kid m.kid) s.signing_keys ≡ none
  pub rows : s'.signing_keys ≡ s.signing_keys ++ k ∷ []
  pub kid : k.kid ≡ m.kid
  pub public_kid : k.public_jwk.kid ≡ m.kid
  pub status : k.status ≡ at

-- The row of a kid has been made the active one.
pub record Activated (env : Settings) (now : Instant) (kid : Token) (k : OidcSigningKey)
    (s s' : KeyStore) : Type 0 where
  pub old : OidcSigningKey
  pub found : first_where (has_kid kid) s.signing_keys ≡ some old
  pub not_retired : is_retired old ≡ false
  pub row : k ≡ promote now old
  pub rows : s'.signing_keys ≡ activate_rows env now kid s.signing_keys

module _ (env : Settings) (encrypt : Token → Token) (db_now now : Instant) where
  pub create-Added :
      (m : KeyMaterial) (status : KeyStatus) (actor : Text) (k : OidcSigningKey) (s s' : KeyStore)
      → create_signing_key env encrypt db_now m status actor now s ≡ ok (k, s')
      → Added m status k s s'
  unfolding create_signing_key
  create-Added m active actor k s s' h = ground arith
  create-Added m validating actor k s s' h = ground arith
  create-Added m retired actor k s s' h = ground arith

  -- An active key is there already, or one has been added where there was none.
  pub ensure-Added :
      (m : KeyMaterial) (k : OidcSigningKey) (s s' : KeyStore)
      → ensure_active_signing_key env encrypt db_now m now s ≡ ok (k, s')
      → ((first_where is_active s.signing_keys ≡ some k) × (s' ≡ s))
        ⊎ ((first_where is_active s.signing_keys ≡ none) × Added m active k s s')
  unfolding ensure_active_signing_key
  ensure-Added m k s s' h = elim (Option-cases (first_where is_active s.signing_keys)) [
    | inl e ↦ inr (e, create-Added m active _ k s s' (rw e at h))
    | inr (a, e) ↦ inl (ground arith)
  ]

module _ (env : Settings) (db_now now : Instant) where
  pub activate-Activated :
      (kid : Token) (actor : Text) (k : OidcSigningKey) (s s' : KeyStore)
      → activate_signing_key env db_now kid actor now s ≡ ok (k, s')
      → Activated env now kid k s s'
  unfolding activate_signing_key
  activate-Activated kid actor k s s' h =
      elim (Option-cases (first_where (has_kid kid) s.signing_keys)) [
        | inl e ↦ cc (rw e at h)
        | inr (a, e) ↦ record {
          old = a;
          found = e;
          not_retired = ground arith;
          row = ground arith;
          rows = ground arith;
        }
      ]

-- A rotation has added a key and then activated it.
pub record Rotated (env : Settings) (now : Instant) (m : KeyMaterial) (k : OidcSigningKey)
    (s s' : KeyStore) : Type 0 where
  pub new_key : OidcSigningKey
  pub mid : KeyStore
  pub added : Added m validating new_key s mid
  pub activated : Activated env now m.kid k mid s'

module _ (env : Settings) (encrypt : Token → Token) (db_now now : Instant) where
  pub rotate-Rotated :
      (m : KeyMaterial) (actor : Text) (k : OidcSigningKey) (s s' : KeyStore)
      → rotate_signing_key env encrypt db_now m actor now s ≡ ok (k, s')
      → Rotated env now m k s s'
  unfolding rotate_signing_key
  rotate-Rotated m actor k s s' h =
      let made = >>=-ok (create_signing_key env encrypt db_now m validating actor now s) _ h in
      let added =
        create-Added env encrypt db_now now m validating actor made.0.0 s made.0.1 made.1 in
      record {
        new_key = made.0.0;
        mid = made.0.1;
        added = added;
        activated =
            subst (λ kid. Activated env now kid k made.0.1 s') added.kid
              (activate-Activated env db_now now made.0.0.kid actor k made.0.1 s' made.2);
      }

-- ===== src/OidcKeys/Active.antt =====
-- The number of active keys.
use native.Mathlib.Decide.{ℕ_discrete}
use mathlib.Core.Path.{subst}
use satoidc.Common.{◌+◌, ◌≤◌, ◌≡◌, refl, none, some, List, [], ◌∷◌, ◌++◌, arith}
use satoidc.Common.Rows.{first_where, count_where, update_where}
use satoidc.Common.Rows.Counting.{
  count_where-append, count_where-first_none, count_where-first_some,
}
use satoidc.Models.{Token, Instant, OidcSigningKey}
use satoidc.Settings.{Settings}
use satoidc.OidcKeys.Store.{is_active, has_kid}
use satoidc.OidcKeys.Lifecycle.{activate_rows, demote, is_demoted}

-- No two rows share a kid, and at most one is active.
pub record IsValid (keys : List OidcSigningKey) : Type 0 where
  pub kids : (k : Token) → count_where (has_kid k) keys ≤ 1
  pub one_active : count_where is_active keys ≤ 1

-- Of rows with another kid, none stays active.
demote_others :
    (env : Settings) (now : Instant) (kid : Token) (keys : List OidcSigningKey)
    → count_where (has_kid kid) keys ≡ 0
    → count_where is_active (update_where (is_demoted kid) (demote env now) keys) ≡ 0
demote_others env now kid [] h = refl
demote_others env now kid (k ∷ ks) h = ground (arith, demote_others env now kid ks)

-- After the activation of a kid that names one row, exactly one row is active.
pub count_active-activate_rows :
    (env : Settings) (now : Instant) (kid : Token) (keys : List OidcSigningKey)
    → count_where (has_kid kid) keys ≡ 1
    → count_where is_active (activate_rows env now kid keys) ≡ 1
unfolding activate_rows
count_active-activate_rows env now kid [] h = absurd (omega arith)
count_active-activate_rows env now kid (k ∷ ks) h =
    ground (arith, demote_others env now kid ks, count_active-activate_rows env now kid ks)

count_kid-demoted :
    (env : Settings) (now : Instant) (kid j : Token) (keys : List OidcSigningKey)
    → count_where (has_kid j) (update_where (is_demoted kid) (demote env now) keys)
      ≡ count_where (has_kid j) keys
count_kid-demoted env now kid j [] = refl
count_kid-demoted env now kid j (k ∷ ks) = ground (arith, count_kid-demoted env now kid j ks)

-- Activation changes no kid.
count_kid-activate_rows :
    (env : Settings) (now : Instant) (kid j : Token) (keys : List OidcSigningKey)
    → count_where (has_kid j) (activate_rows env now kid keys) ≡ count_where (has_kid j) keys
unfolding activate_rows
count_kid-activate_rows env now kid j [] = refl
count_kid-activate_rows env now kid j (k ∷ ks) =
    ground (arith, count_kid-demoted env now kid j ks, count_kid-activate_rows env now kid j ks)

count_kid-append :
    (row : OidcSigningKey) (keys : List OidcSigningKey) (k : Token)
    → count_where (has_kid k) keys ≤ 1
    → count_where (has_kid row.kid) keys ≡ 0
    → count_where (has_kid k) keys + count_where (has_kid k) (row ∷ []) ≤ 1
count_kid-append row keys k le_one fresh = elim (ℕ_discrete row.kid k) [
  | yes e ↦ omega (arith, le_one_of_zero k e)
  | no n ↦ ground arith
]
  where
    le_one_of_zero : (j : Token) → row.kid ≡ j → count_where (has_kid j) (row ∷ keys) ≤ 1
    le_one_of_zero j e = subst (λ i. count_where (has_kid i) (row ∷ keys) ≤ 1) e (ground arith)

-- A new row with a kid of its own keeps the invariant, if it is no second active one.
pub IsValid-append :
    (row : OidcSigningKey) (keys : List OidcSigningKey)
    → IsValid keys
    → first_where (has_kid row.kid) keys ≡ none
    → count_where is_active keys + count_where is_active (row ∷ []) ≤ 1
    → IsValid (keys ++ row ∷ [])
IsValid-append row keys v fresh room = record {
  kids = λ k. rw count_where-append (
      count_kid-append row keys k (v.kids k) (count_where-first_none (has_kid row.kid) keys fresh));
  one_active = rw count_where-append room;
}

-- Activating a key that is there keeps the invariant.
pub activate_rows-IsValid :
    (env : Settings) (now : Instant) (kid : Token) (keys : List OidcSigningKey)
    (key : OidcSigningKey)
    → first_where (has_kid kid) keys ≡ some key
    → IsValid keys
    → IsValid (activate_rows env now kid keys)
activate_rows-IsValid env now kid keys key found v = record {
  kids = λ k. rw count_kid-activate_rows (v.kids k);
  one_active = omega (
    arith,
    v.kids kid,
    count_where-first_some (has_kid kid) keys key found,
    count_active-activate_rows env now kid keys,
  );
}

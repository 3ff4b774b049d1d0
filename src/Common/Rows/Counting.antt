-- ===== src/Common/Rows/Counting.antt =====
-- How often a test holds, through queries and updates.
use Prim.Native.Nat.{◌+◌, ◌≤◌}
use mathlib.Core.Path.{◌≡◌, refl}
use mathlib.Core.Bool.{Bool, true, false, ◌&&◌}
use mathlib.Core.Option.{none, some}
use mathlib.Core.List.{List, [], ◌∷◌, ◌++◌}
use native.Mathlib.Omega.{arith}
use satoidc.Common.Rows.{
  All, first_where, count_where, update_first, update_where, rows_where, length,
}

module _ {ℓ} {A : Type ℓ} where
  pub count_where-append :
      (q : A → Bool) (xs ys : List A)
      → count_where q (xs ++ ys) ≡ count_where q xs + count_where q ys
  count_where-append q [] ys = omega arith
  count_where-append q (x ∷ xs) ys = omega (arith, count_where-append q xs ys)

  -- A query that finds nothing counts nothing.
  pub count_where-first_none :
      (q : A → Bool) (xs : List A) → first_where q xs ≡ none → count_where q xs ≡ 0
  count_where-first_none q [] h = refl
  count_where-first_none q (x ∷ xs) h = ground (arith, count_where-first_none q xs)

  -- A query that finds a row counts at least that row.
  pub count_where-first_some :
      (q : A → Bool) (xs : List A) (a : A) → first_where q xs ≡ some a → 1 ≤ count_where q xs
  count_where-first_some q [] a h = cc
  count_where-first_some q (x ∷ xs) a h = ground (arith, count_where-first_some q xs a)

  -- An update that gives no row the test counts no more than before.
  pub count_where-update_first_le :
      (q p : A → Bool) (f : A → A) (xs : List A)
      → ((x : A) → p x ≡ true → q (f x) ≡ true → q x ≡ true)
      → count_where q (update_first p f xs) ≤ count_where q xs
  count_where-update_first_le q p f [] h = omega arith
  count_where-update_first_le q p f (x ∷ xs) h =
      ground (arith, h x, count_where-update_first_le q p f xs h)

  pub count_where-update_where_le :
      (q p : A → Bool) (f : A → A) (xs : List A)
      → ((x : A) → p x ≡ true → q (f x) ≡ true → q x ≡ true)
      → count_where q (update_where p f xs) ≤ count_where q xs
  count_where-update_where_le q p f [] h = omega arith
  count_where-update_where_le q p f (x ∷ xs) h =
      ground (arith, h x, count_where-update_where_le q p f xs h)

  -- One row changes, so the count grows by one at most.
  pub count_where-update_first_suc :
      (q p : A → Bool) (f : A → A) (xs : List A)
      → count_where q (update_first p f xs) ≤ count_where q xs + 1
  count_where-update_first_suc q p f [] = omega arith
  count_where-update_first_suc q p f (x ∷ xs) =
      ground (arith, count_where-update_first_suc q p f xs)

  -- Two tests that agree on every row count the same.
  pub count_where-All-false :
      (q : A → Bool) (xs : List A) → All (λ x. q x ≡ false) xs → count_where q xs ≡ 0
  count_where-All-false q [] h = refl
  count_where-All-false q (x ∷ xs) h = ground (arith, count_where-All-false q xs h.1)

  pub length-update_first :
      (p : A → Bool) (f : A → A) (xs : List A) → length (update_first p f xs) ≡ length xs
  length-update_first p f [] = refl
  length-update_first p f (x ∷ xs) = ground (arith, length-update_first p f xs)

  -- An update that keeps the test where it holds counts no fewer than before.
  pub count_where-le-update_first :
      (q p : A → Bool) (f : A → A) (xs : List A)
      → ((x : A) → p x ≡ true → q x ≡ true → q (f x) ≡ true)
      → count_where q xs ≤ count_where q (update_first p f xs)
  count_where-le-update_first q p f [] h = omega arith
  count_where-le-update_first q p f (x ∷ xs) h =
      ground (arith, h x, count_where-le-update_first q p f xs h)

  pub count_where-le-update_where :
      (q p : A → Bool) (f : A → A) (xs : List A)
      → ((x : A) → p x ≡ true → q x ≡ true → q (f x) ≡ true)
      → count_where q xs ≤ count_where q (update_where p f xs)
  count_where-le-update_where q p f [] h = omega arith
  count_where-le-update_where q p f (x ∷ xs) h =
      ground (arith, h x, count_where-le-update_where q p f xs h)

  -- A test that implies another counts no more.
  pub count_where_mono :
      (q p : A → Bool) (xs : List A)
      → ((x : A) → q x ≡ true → p x ≡ true)
      → count_where q xs ≤ count_where p xs
  count_where_mono q p [] h = omega arith
  count_where_mono q p (x ∷ xs) h = ground (arith, h x, count_where_mono q p xs h)

  pub count_where-rows_where :
      (q p : A → Bool) (xs : List A)
      → count_where q (rows_where p xs) ≡ count_where (λ x. p x && q x) xs
  count_where-rows_where q p [] = refl
  count_where-rows_where q p (x ∷ xs) = ground (arith, count_where-rows_where q p xs)

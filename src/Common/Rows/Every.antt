-- ===== src/Common/Rows/Every.antt =====
-- Properties of every row through queries and updates.
use mathlib.Core.Path.{◌≡◌, refl, subst}
use mathlib.Core.Bool.{Bool, true, false}
use mathlib.Core.Option.{Option, none, some}
use mathlib.Core.List.{List, [], ◌∷◌, ◌++◌}
use native.Mathlib.Omega.{arith}
use satoidc.Common.Tests.{if◌then◌else◌}
use satoidc.Common.Rows.{All, first_where, update_first, update_where}

-- A row that a query returns passes its test.
pub first_where_sound {ℓ} :
    {A : Type ℓ} (p : A → Bool) (xs : List A) (a : A) → first_where p xs ≡ some a → p a ≡ true
first_where_sound p [] a h = cc
first_where_sound p (x ∷ xs) a h = ground (arith, first_where_sound p xs a)

-- Where a query finds nothing, no row passes its test.
pub All-first_where-none {ℓ} :
    {A : Type ℓ} (p : A → Bool) (xs : List A) → first_where p xs ≡ none → All (λ x. p x ≡ false) xs
All-first_where-none p [] h = tt
All-first_where-none p (x ∷ xs) h = ground (arith, All-first_where-none p xs)

module _ {ℓ κ} {A : Type ℓ} (P : A → Type κ) where
  All-head :
      (b : Bool) (x a : A) (rest : Option A)
      → P x
      → (rest ≡ some a → P a)
      → (if b then some x else rest) ≡ some a
      → P a
  All-head true x a rest px pr h = subst P (cc) px
  All-head false x a rest px pr h = pr h

  -- A row that a query returns has what every row has.
  pub All-first_where :
      (p : A → Bool) (xs : List A) (a : A) → All P xs → first_where p xs ≡ some a → P a
  All-first_where p [] a k h = cc
  All-first_where p (x ∷ xs) a k h =
      All-head (p x) x a (first_where p xs) k.0 (All-first_where p xs a k.1) h

  pub All-append : (rows more : List A) → All P rows → All P more → All P (rows ++ more)
  All-append [] more first second = second
  All-append (row ∷ rows) more (here, later) second = (here, All-append rows more later second)

  All-step : (b : Bool) (x y : A) → (b ≡ true → P y) → P x → P (if b then y else x)
  All-step true x y py px = py refl
  All-step false x y py px = px

  -- An update that keeps the property on the rows that it changes keeps it on every row.
  pub All-update_where :
      (p : A → Bool) (f : A → A) (xs : List A)
      → ((x : A) → p x ≡ true → P x → P (f x))
      → All P xs
      → All P (update_where p f xs)
  All-update_where p f [] h k = tt
  All-update_where p f (x ∷ xs) h k =
      (All-step (p x) x (f x) (λ e. h x e k.0) k.0, All-update_where p f xs h k.1)

  All-split :
      (b : Bool) (x y : A) (xs ys : List A)
      → (b ≡ true → P y)
      → P x
      → All P xs
      → All P ys
      → All P (if b then y ∷ xs else x ∷ ys)
  All-split true x y xs ys py px hx hy = (py refl, hx)
  All-split false x y xs ys py px hx hy = (px, hy)

  pub All-update_first :
      (p : A → Bool) (f : A → A) (xs : List A)
      → ((x : A) → p x ≡ true → P x → P (f x))
      → All P xs
      → All P (update_first p f xs)
  All-update_first p f [] h k = tt
  All-update_first p f (x ∷ xs) h k =
      All-split (p x) x (f x) xs (update_first p f xs) (λ e. h x e k.0) k.0 k.1
        (All-update_first p f xs h k.1)

-- ===== src/Common/Rows.antt =====
-- A table is the list of its rows in the order of insertion. A query by `where` with `scalar` or
-- `first` reads the first row that fits; an object so read and then changed is that row.
pub mod Counting
pub mod Every
pub mod Keyed
pub mod Reordered
use Prim.Native.Nat.{ℕ, suc, ◌+◌}
use mathlib.Core.Bool.{Bool}
use mathlib.Core.Option.{Option, none, some}
use mathlib.Core.List.{List, [], ◌∷◌}
use satoidc.Common.Tests.{if◌then◌else◌}

-- Every row has the property.
abbrev pub All {ℓ κ} : {Row : Type ℓ} → (Row → Type κ) → List Row → Type κ
All P [] = Unit
All P (row ∷ rows) = P row × All P rows

module _ {ℓ} {A : Type ℓ} where
  abbrev pub length : List A → ℕ
  length [] = 0
  length (x ∷ xs) = suc (length xs)

  abbrev pub first_where : (A → Bool) → List A → Option A
  first_where p [] = none
  first_where p (x ∷ xs) = if p x then some x else first_where p xs

  abbrev pub rows_where : (A → Bool) → List A → List A
  rows_where p [] = []
  rows_where p (x ∷ xs) = let rest = rows_where p xs in if p x then x ∷ rest else rest

  abbrev pub count_where : (A → Bool) → List A → ℕ
  count_where p [] = 0
  count_where p (x ∷ xs) = (if p x then 1 else 0) + count_where p xs

  -- `x.f = …` on the object that `first_where` reads
  abbrev pub update_first : (A → Bool) → (A → A) → List A → List A
  update_first p f [] = []
  update_first p f (x ∷ xs) = if p x then f x ∷ xs else x ∷ update_first p f xs

  -- the same on every row that fits
  abbrev pub update_where : (A → Bool) → (A → A) → List A → List A
  update_where p f [] = []
  update_where p f (x ∷ xs) = (if p x then f x else x) ∷ update_where p f xs

  -- `session.delete(x)` on the object that `first_where` reads
  abbrev pub delete_first : (A → Bool) → List A → List A
  delete_first p [] = []
  delete_first p (x ∷ xs) = if p x then xs else x ∷ delete_first p xs

-- ===== src/Common/Rows/Keyed.antt =====
-- A table with a uniqueness constraint on two columns: a row is added where a query for its columns
-- has found none.
use mathlib.Core.Path.{◌≡◌, sym, ◌∙◌, subst₂}
use mathlib.Core.Bool.{Bool, true}
use mathlib.Core.Logic.{inl, inr}
use mathlib.Core.Option.{none}
use mathlib.Core.List.{List, [], ◌∷◌, ◌++◌}
use Prim.Native.Nat.{◌≤◌}
use native.Mathlib.Omega.{arith}
use satoidc.Common.Tests.{Bool-cases}
use satoidc.Common.Rows.{first_where, count_where}
use satoidc.Common.Rows.Counting.{count_where-append, count_where-first_none}

module _ {A K L : Type 0} (q : K → L → A → Bool) (key : A → K) (label : A → L)
    (sound : (k : K) (l : L) (x : A) → q k l x ≡ true → (key x ≡ k) × (label x ≡ l)) where
  count_append_same :
      (k k' : K) (l l' : L) (row : A) (rows : List A)
      → q k l row ≡ true
      → q k' l' row ≡ true
      → first_where (q k' l') rows ≡ none
      → count_where (q k l) (rows ++ row ∷ []) ≤ 1
  count_append_same k k' l l' row rows h h' fresh =
      let (ek, el) = sound k l row h in
      let (ek', el') = sound k' l' row h' in
      subst₂ (λ a b. count_where (q a b) (rows ++ row ∷ []) ≤ 1) (sym ek' ∙ ek) (sym el' ∙ el)
        (rw count_where-append (ground (arith, count_where-first_none (q k' l') rows fresh)))

  pub count_append_le :
      (k k' : K) (l l' : L) (row : A) (rows : List A)
      → count_where (q k l) rows ≤ 1
      → q k' l' row ≡ true
      → first_where (q k' l') rows ≡ none
      → count_where (q k l) (rows ++ row ∷ []) ≤ 1
  count_append_le k k' l l' row rows le_one h' fresh = elim (Bool-cases (q k l row)) [
    | inl same ↦ count_append_same k k' l l' row rows same h' fresh
    | inr other ↦ rw count_where-append (ground arith)
  ]

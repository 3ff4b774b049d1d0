-- ===== src/Common/Rows/Reordered.antt =====
-- The same rows in another order: what queries and updates make of them, where at most one row fits.
use Prim.Native.Nat.{◌≤◌}
use mathlib.Core.Path.{◌≡◌, refl, ◌∙◌, ap}
use mathlib.Core.Bool.{Bool}
use mathlib.Core.Logic.{inl, inr}
use mathlib.Core.List.{List, [], ◌∷◌, ◌++◌, map, Permᴰ}
use native.Mathlib.Omega.{arith}
use satoidc.Common.Tests.{Bool-cases}
use satoidc.Common.Rows.{first_where, rows_where, count_where, update_first}

module _ {A : Type 0} where
  pub in_order : (xs : List A) → Permᴰ xs xs
  in_order [] = Permᴰ.nil
  in_order (x ∷ xs) = Permᴰ.cons refl (in_order xs)

  pub append-reordered : {xs ys : List A} (zs : List A) → Permᴰ xs ys → Permᴰ (xs ++ zs) (ys ++ zs)
  append-reordered zs Permᴰ.nil = in_order zs
  append-reordered zs (Permᴰ.cons e d) = Permᴰ.cons e (append-reordered zs d)
  append-reordered zs (Permᴰ.swap e e') = Permᴰ.swap e e'
  append-reordered zs (Permᴰ.trans d d') =
      Permᴰ.trans (append-reordered zs d) (append-reordered zs d')

  pub count_where-reordered :
      (q : A → Bool) {xs ys : List A} → Permᴰ xs ys → count_where q xs ≡ count_where q ys
  count_where-reordered q Permᴰ.nil = refl
  count_where-reordered q (Permᴰ.cons e d) = rw e (omega (arith, count_where-reordered q d))
  count_where-reordered q (Permᴰ.swap e e') = rw (e, e') (omega arith)
  count_where-reordered q (Permᴰ.trans d d') =
      count_where-reordered q d ∙ count_where-reordered q d'

  pub first_where-reordered :
      (p : A → Bool) {xs ys : List A}
      → Permᴰ xs ys
      → count_where p xs ≤ 1
      → first_where p xs ≡ first_where p ys
  first_where-reordered p Permᴰ.nil one = refl
  first_where-reordered p (Permᴰ.cons {b = b} e d) one =
      rw e (ground (arith, first_where-reordered p d))
  first_where-reordered p (Permᴰ.swap e e') one = rw (e, e') (ground arith)
  first_where-reordered p (Permᴰ.trans d d') one =
      first_where-reordered p d one
      ∙ first_where-reordered p d' (omega (arith, count_where-reordered p d))

  pub update_first-reordered :
      (p : A → Bool) (f : A → A) {xs ys : List A}
      → Permᴰ xs ys
      → count_where p xs ≤ 1
      → Permᴰ (update_first p f xs) (update_first p f ys)
  update_first-reordered p f Permᴰ.nil one = Permᴰ.nil
  update_first-reordered p f (Permᴰ.cons {b = b} e d) one = elim (Bool-cases (p b)) [
    | inl is ↦ rw (e, is) (Permᴰ.cons refl d)
    | inr other ↦
        rw (e, other)
          (Permᴰ.cons refl (update_first-reordered p f d (omega (arith, (rw (e, other) at one)))))
  ]
  update_first-reordered p f (Permᴰ.swap {a' = a} {b' = b} e e') one = elim (Bool-cases (p a)) [
    | inl here ↦ elim (Bool-cases (p b)) [
      | inl there ↦ absurd (ground (arith))
      | inr other ↦ rw (e, e', here, other) (Permᴰ.swap refl refl)
    ]
    | inr other ↦ elim (Bool-cases (p b)) [
      | inl there ↦ rw (e, e', other, there) (Permᴰ.swap refl refl)
      | inr neither ↦ rw (e, e', other, neither) (Permᴰ.swap refl refl)
    ]
  ]
  update_first-reordered p f (Permᴰ.trans d d') one =
      Permᴰ.trans (update_first-reordered p f d one)
        (update_first-reordered p f d' (omega (arith, count_where-reordered p d)))

  pub rows_where-reordered :
      (q : A → Bool) {xs ys : List A} → Permᴰ xs ys → Permᴰ (rows_where q xs) (rows_where q ys)
  rows_where-reordered q Permᴰ.nil = Permᴰ.nil
  rows_where-reordered q (Permᴰ.cons {b = b} e d) = elim (Bool-cases (q b)) [
    | inl is ↦ rw (e, is) (Permᴰ.cons refl (rows_where-reordered q d))
    | inr other ↦ rw (e, other) (rows_where-reordered q d)
  ]
  rows_where-reordered q (Permᴰ.swap {a' = a} {b' = b} e e') = elim (Bool-cases (q a)) [
    | inl here ↦ elim (Bool-cases (q b)) [
      | inl there ↦ rw (e, e', here, there) (Permᴰ.swap refl refl)
      | inr out ↦ rw (e, e', here, out) (in_order _)
    ]
    | inr out ↦ rw (e, e', out) (in_order _)
  ]
  rows_where-reordered q (Permᴰ.trans d d') =
      Permᴰ.trans (rows_where-reordered q d) (rows_where-reordered q d')

module _ {A B : Type 0} (f : A → B) where
  pub map-reordered : {xs ys : List A} → Permᴰ xs ys → Permᴰ (map f xs) (map f ys)
  map-reordered Permᴰ.nil = Permᴰ.nil
  map-reordered (Permᴰ.cons e d) = Permᴰ.cons (ap f e) (map-reordered d)
  map-reordered (Permᴰ.swap e e') = Permᴰ.swap (ap f e) (ap f e')
  map-reordered (Permᴰ.trans d d') = Permᴰ.trans (map-reordered d) (map-reordered d')

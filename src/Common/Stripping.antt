-- ===== src/Common/Stripping.antt =====
-- `strip`, from the two ends of a text.
use mathlib.Core.Path.{◌≡◌, refl, ap, ◌∙◌}
use mathlib.Core.Bool.{true, false, ◌&&◌}
use mathlib.Core.List.{[], ◌∷◌, reverse_aux, reverse-reverse}
use mathlib.Core.Logic.{inl, inr}
use native.Mathlib.Omega.{arith}
use Prim.Native.Nat.{ℕ}
use satoidc.Common.Tests.{if◌then◌else◌, Bool-cases}
use satoidc.Common.Texts.{Text, is_empty, is_space, lstrip, strip}
use satoidc.Common.Rows.{All}

rstrip : Text → Text
rstrip [] = []
rstrip (c ∷ s) = let r = rstrip s in if is_empty r && is_space c then [] else c ∷ r

lstrip-rev :
    (u t : Text)
    → lstrip (reverse_aux u t)
      ≡ (if is_empty (rstrip u) then lstrip t else reverse_aux (rstrip u) t)
unfolding rstrip lstrip
lstrip-rev [] t = refl
lstrip-rev (c ∷ s) t = ground (arith, lstrip-rev s (c ∷ t))

-- `strip` takes off what stands at the front and then what stands at the end.
strip-rstrip : (s : Text) → strip s ≡ rstrip (lstrip s)
unfolding strip
strip-rstrip s = elim (Bool-cases (is_empty (rstrip (lstrip s)))) [
  | inl nothing ↦ rw (lstrip-rev (lstrip s) [], nothing) (empty_nil (rstrip (lstrip s)) nothing)
  | inr kept ↦ rw (lstrip-rev (lstrip s) [], kept) (reverse-reverse (rstrip (lstrip s)))
]
  where
    empty_nil : (t : Text) → is_empty t ≡ true → [] ≡ t
    empty_nil [] h = refl
    empty_nil (c ∷ t) h = cc

rstrip-rstrip : (s : Text) → rstrip (rstrip s) ≡ rstrip s
unfolding rstrip
rstrip-rstrip [] = refl
rstrip-rstrip (c ∷ s) = ground (arith, rstrip-rstrip s)

-- A text that does not begin with a space.
Starts : Text → Type 0
Starts [] = Unit
Starts (c ∷ s) = is_space c ≡ false

Starts-lstrip : (s : Text) → Starts (lstrip s)
unfolding Starts lstrip
Starts-lstrip [] = tt
Starts-lstrip (c ∷ s) = elim (Bool-cases (is_space c)) [
  | inl space ↦ rw space (Starts-lstrip s)
  | inr other ↦ rw other other
]

lstrip-rstrip : (s : Text) → Starts s → lstrip (rstrip s) ≡ rstrip s
unfolding Starts lstrip rstrip
lstrip-rstrip [] h = refl
lstrip-rstrip (c ∷ s) h = ground arith

pub strip-strip : (s : Text) → strip (strip s) ≡ strip s
strip-strip s =
    let once : strip s ≡ rstrip (lstrip s) = strip-rstrip s in
    rw once (
      strip-rstrip (rstrip (lstrip s))
      ∙ (ap rstrip (lstrip-rstrip (lstrip s) (Starts-lstrip s)) ∙ rstrip-rstrip (lstrip s)))

module _ {κ} (P : ℕ → Type κ) where
  All-lstrip : (s : Text) → All P s → All P (lstrip s)
  unfolding lstrip
  All-lstrip [] h = tt
  All-lstrip (c ∷ s) (here, later) = elim (Bool-cases (is_space c)) [
    | inl space ↦ rw space (All-lstrip s later)
    | inr other ↦ rw other (here, later)
  ]

  All-rstrip : (s : Text) → All P s → All P (rstrip s)
  unfolding rstrip
  All-rstrip [] h = tt
  All-rstrip (c ∷ s) (here, later) = elim (Bool-cases (is_empty (rstrip s) && is_space c)) [
    | inl end ↦ rw end tt
    | inr other ↦ rw other (here, All-rstrip s later)
  ]

  -- What every character of a text has, every character of it without spaces at its ends has.
  pub All-strip : (s : Text) → All P s → All P (strip s)
  All-strip s h = rw (strip-rstrip s) (All-rstrip (lstrip s) (All-lstrip s h))

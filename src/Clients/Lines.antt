-- ===== src/Clients/Lines.antt =====
-- The lists that the fields of the form of a client are read as, written into a field and read again.
use satoidc.Common.{
  ℕ, ◌≡◌, refl, ap, ◌∙◌, Bool, true, false, not, Option, some, List, [], ◌∷◌, ◌++◌, inl, inr,
  Bool-cases, map,
}
use satoidc.Common.Rows.{All, rows_where}
use satoidc.Common.Stripping.{strip-strip, All-strip}
use satoidc.Common.Texts.{Text, codes, is_empty, strip}
use satoidc.Clients.Fields.{or_empty, onto_head, pieces, is_line_end, parse_multiline_values, join}

-- No character of the text ends a piece.
abbrev pub Whole : (ℕ → Bool) → Text → Type 0
Whole p s = All (λ c. p c ≡ false) s

module _ (p : ℕ → Bool) where
  pub Whole-pieces : (s : Text) → All (Whole p) (pieces p s)
  Whole-pieces [] = (tt, tt)
  Whole-pieces (c ∷ s) = elim (Bool-cases (p c)) [
    | inl ends ↦ rw ends (tt, Whole-pieces s)
    | inr other ↦ rw other (onto other (pieces p s) (Whole-pieces s))
  ]
    where
      onto : p c ≡ false → (ls : List Text) → All (Whole p) ls → All (Whole p) (onto_head c ls)
      onto other [] h = ((other, tt), tt)
      onto other (l ∷ ls) (here, later) = ((other, here), later)

  pieces-Whole : (s : Text) → Whole p s → pieces p s ≡ s ∷ []
  pieces-Whole [] h = refl
  pieces-Whole (c ∷ s) (here, later) = rw (here, pieces-Whole s later) refl

  pieces-append :
      (c : ℕ) (s t : Text) → p c ≡ true → Whole p s → pieces p (s ++ (c ∷ []) ++ t) ≡ s ∷ pieces p t
  pieces-append c [] t ends h = rw ends refl
  pieces-append c (d ∷ s) t ends (here, later) = rw (here, pieces-append c s t ends later) refl

  -- Texts that no separator ends are the pieces of what they are joined to.
  pub pieces-join :
      (c : ℕ) (l : Text) (ls : List Text)
      → p c ≡ true
      → All (Whole p) (l ∷ ls)
      → pieces p (join (c ∷ []) (l ∷ ls)) ≡ l ∷ ls
  pieces-join c l [] ends (here, later) = pieces-Whole l here
  pieces-join c l (m ∷ ls) ends (here, later) =
      pieces-append c l (join (c ∷ []) (m ∷ ls)) ends here
      ∙ ap (◌∷◌ l) (pieces-join c m ls ends later)

-- A query that every row passes returns them all.
pub rows_where-All {ℓ} :
    {A : Type ℓ} (q : A → Bool) (xs : List A) → All (λ x. q x ≡ true) xs → rows_where q xs ≡ xs
rows_where-All q [] h = refl
rows_where-All q (x ∷ xs) (here, later) = rw (here, rows_where-All q xs later) refl

pub rows_where-passes {ℓ} :
    {A : Type ℓ} (q : A → Bool) (xs : List A) → All (λ x. q x ≡ true) (rows_where q xs)
rows_where-passes q [] = tt
rows_where-passes q (x ∷ xs) = elim (Bool-cases (q x)) [
  | inl is ↦ rw is (is, rows_where-passes q xs)
  | inr other ↦ rw other (rows_where-passes q xs)
]

module _ {ℓ κ} {A : Type ℓ} (P : A → Type κ) where
  pub All-rows_where : (q : A → Bool) (xs : List A) → All P xs → All P (rows_where q xs)
  All-rows_where q [] h = tt
  All-rows_where q (x ∷ xs) (here, later) = elim (Bool-cases (q x)) [
    | inl is ↦ rw is (here, All-rows_where q xs later)
    | inr other ↦ rw other (All-rows_where q xs later)
  ]

abbrev pub is_filled : Text → Bool
is_filled l = not (is_empty l)

-- What a line that has been read is: a text on one line without spaces at its ends, and not empty.
abbrev IsLine : Text → Type 0
IsLine l = Whole is_line_end l × (strip l ≡ l)

IsLine-strip : (ls : List Text) → All (Whole is_line_end) ls → All IsLine (map strip ls)
IsLine-strip [] h = tt
IsLine-strip (l ∷ ls) (here, later) = ((All-strip _ l here, strip-strip l), IsLine-strip ls later)

stripped : (ls : List Text) → All IsLine ls → map strip ls ≡ ls
stripped [] h = refl
stripped (l ∷ ls) ((whole, same), later) = rw (same, stripped ls later) refl

IsLine-Whole : (ls : List Text) → All IsLine ls → All (Whole is_line_end) ls
IsLine-Whole [] h = tt
IsLine-Whole (l ∷ ls) ((whole, same), later) = (whole, IsLine-Whole ls later)

read_lines :
    (ls : List Text)
    → All IsLine ls
    → All (λ l. is_filled l ≡ true) ls
    → parse_multiline_values (some (join (codes "\n") ls)) ≡ ls
unfolding parse_multiline_values
read_lines [] h k = refl
read_lines (l ∷ ls) h k =
    ap (λ ts. rows_where is_filled (map strip ts))
      (pieces-join is_line_end 10 l ls refl (IsLine-Whole (l ∷ ls) h))
    ∙ (ap (rows_where is_filled) (stripped (l ∷ ls) h) ∙ rows_where-All is_filled (l ∷ ls) k)

read_IsLine : (value : Option Text) → All IsLine (parse_multiline_values value)
unfolding parse_multiline_values
read_IsLine value =
    All-rows_where IsLine _ _ (IsLine-strip _ (Whole-pieces is_line_end (or_empty value)))

read_filled : (value : Option Text) → All (λ l. is_filled l ≡ true) (parse_multiline_values value)
unfolding parse_multiline_values
read_filled value = rows_where-passes is_filled (map strip (pieces is_line_end (or_empty value)))

-- The lines of a field that have been read, written one on a line, are read as the same lines.
pub parse_multiline_values-join :
    (value : Option Text)
    → parse_multiline_values (some (join (codes "\n") (parse_multiline_values value)))
      ≡ parse_multiline_values value
parse_multiline_values-join value =
    read_lines (parse_multiline_values value) (read_IsLine value) (read_filled value)

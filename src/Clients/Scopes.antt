-- ===== src/Clients/Scopes.antt =====
-- The scopes of the form of a client, written into its field and read again.
use satoidc.Common.{◌≡◌, refl, ap, ◌∙◌, true, not, Option, some, List, [], ◌∷◌}
use satoidc.Common.{inl, inr, Bool, Bool-cases}
use satoidc.Common.Rows.{All, rows_where}
use satoidc.Common.Texts.{Text, codes, text_eq, is_space}
use satoidc.Clients.Fields.{or_empty, pieces, split, distinct, join, parse_scope}
use satoidc.Clients.Lines.{
  Whole, is_filled, Whole-pieces, pieces-join, rows_where-All, rows_where-passes, All-rows_where,
}

-- No text comes twice.
Apart : List Text → Type 0
Apart [] = Unit
Apart (t ∷ ts) = All (λ s. not (text_eq t s) ≡ true) ts × Apart ts

Apart-rows_where : (q : Text → Bool) (ts : List Text) → Apart ts → Apart (rows_where q ts)
unfolding Apart
Apart-rows_where q [] h = tt
Apart-rows_where q (t ∷ ts) (here, later) = elim (Bool-cases (q t)) [
  | inl is ↦ rw is (All-rows_where _ q ts here, Apart-rows_where q ts later)
  | inr other ↦ rw other (Apart-rows_where q ts later)
]

Apart-distinct : (ts : List Text) → Apart (distinct ts)
unfolding Apart
Apart-distinct [] = tt
Apart-distinct (t ∷ ts) = (
  rows_where-passes (λ s. not (text_eq t s)) (distinct ts),
  Apart-rows_where (λ s. not (text_eq t s)) (distinct ts) (Apart-distinct ts),
)

distinct-Apart : (ts : List Text) → Apart ts → distinct ts ≡ ts
unfolding Apart
distinct-Apart [] h = refl
distinct-Apart (t ∷ ts) (here, later) =
    ap (λ us. t ∷ rows_where (λ s. not (text_eq t s)) us) (distinct-Apart ts later)
    ∙ ap (◌∷◌ t) (rows_where-All (λ s. not (text_eq t s)) ts here)

All-distinct {κ} : (P : Text → Type κ) (ts : List Text) → All P ts → All P (distinct ts)
All-distinct P [] h = tt
All-distinct P (t ∷ ts) (here, later) =
    (here, All-rows_where P _ (distinct ts) (All-distinct P ts later))

words : Option Text → List Text
words value = distinct (split (or_empty value))

Whole-words : (value : Option Text) → All (Whole is_space) (words value)
unfolding words split
Whole-words value =
    All-distinct _ _ (All-rows_where _ is_filled _ (Whole-pieces is_space (or_empty value)))

filled_words : (value : Option Text) → All (λ l. is_filled l ≡ true) (words value)
unfolding words split
filled_words value =
    All-distinct _ _ (rows_where-passes is_filled (pieces is_space (or_empty value)))

split-join :
    (ts : List Text)
    → All (Whole is_space) ts
    → All (λ l. is_filled l ≡ true) ts
    → split (join (codes " ") ts) ≡ ts
unfolding split
split-join [] h k = refl
split-join (t ∷ ts) h k =
    ap (rows_where is_filled) (pieces-join is_space b' ' t ts refl h)
    ∙ rows_where-All is_filled (t ∷ ts) k

-- Scopes that have been read are read as the same scopes again.
pub parse_scope-parse_scope :
    (value : Option Text) → parse_scope (some (parse_scope value)) ≡ parse_scope value
unfolding parse_scope words
parse_scope-parse_scope value =
    ap (λ ts. join (codes " ") (distinct ts))
      (split-join (words value) (Whole-words value) (filled_words value))
    ∙ ap (join (codes " ")) (distinct-Apart (words value) (Apart-distinct (split (or_empty value))))

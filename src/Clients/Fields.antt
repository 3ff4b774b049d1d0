-- ===== src/Clients/Fields.antt =====
-- The fields of the form of a client as lists of texts (satoidc/satoidc/routes/create_client.py), with the
-- `splitlines` and `split` of Python.
use satoidc.Common.{
  ℕ, Bool, not, ◌&&◌, ◌||◌, Option, none, some, List, [], ◌∷◌, ◌++◌, ◌==◌, leb, if◌then◌else◌, map,
}
use satoidc.Common.Texts.{Text, codes, text_eq, is_empty, is_space, strip}
use satoidc.Common.Rows.{rows_where}

-- `value or ""`
abbrev pub or_empty : Option Text → Text
or_empty none = []
or_empty (some t) = t

-- The characters at which `splitlines` ends a line; a carriage return takes a line feed with it.
abbrev pub is_line_end : ℕ → Bool
is_line_end c =
    (leb 10 c && leb c 13) || (leb 28 c && leb c 30) || c == 0x85 || c == 0x2028 || c == 0x2029

abbrev pub onto_head : ℕ → List Text → List Text
onto_head c [] = (c ∷ []) ∷ []
onto_head c (l ∷ ls) = (c ∷ l) ∷ ls

-- The pieces between characters of the class, empty pieces included.
abbrev pub pieces : (ℕ → Bool) → Text → List Text
pieces p [] = [] ∷ []
pieces p (c ∷ s) = let rest = pieces p s in if p c then [] ∷ rest else onto_head c rest

-- `[line.strip() for line in (value or "").splitlines() if line.strip()]`. An empty line that a pair of
-- line ends would make is dropped like any other.
unfoldable pub parse_multiline_values : Option Text → List Text
unfolding strip
parse_multiline_values value =
    rows_where (λ l. not (is_empty l)) (map strip (pieces is_line_end (or_empty value)))

-- `text.split()`
unfoldable pub split : Text → List Text
unfolding is_space
split s = rows_where (λ l. not (is_empty l)) (pieces is_space s)

-- `list(dict.fromkeys(…))`: the first of equal texts stays.
abbrev pub distinct : List Text → List Text
distinct [] = []
distinct (t ∷ ts) = t ∷ rows_where (λ s. not (text_eq t s)) (distinct ts)

abbrev pub join : Text → List Text → Text
join sep [] = []
join sep (t ∷ []) = t
join sep (t ∷ u ∷ ts) = t ++ sep ++ join sep (u ∷ ts)

unfoldable pub parse_scope : Option Text → Text
unfolding split
parse_scope value = join (codes " ") (distinct (split (or_empty value)))

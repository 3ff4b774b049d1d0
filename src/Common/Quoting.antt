-- ===== src/Common/Quoting.antt =====
-- `urllib.parse.quote(text, safe="")` on the bytes of a text, and what a server reads back. A text
-- outside ASCII goes through UTF-8 first.
use satoidc.Common.Tests.{leb, ltb, ◌==◌, if◌then◌else◌, Bool-cases, lt→ltb}
use satoidc.Common.Texts.{Text}
use satoidc.Common.Rows.{All}
use Prim.Native.Nat.{ℕ, ◌+◌, ◌-◌, ◌*◌, ◌/◌, ◌%◌, ◌<◌}
use mathlib.Core.Path.{◌≡◌, refl, ap, ◌∙◌}
use mathlib.Core.Logic.{inl, inr}
use mathlib.Core.Bool.{Bool, true, false, ◌&&◌, ◌||◌}
use mathlib.Core.List.{[], ◌∷◌}
use native.Mathlib.Omega.{arith}

-- The letters, the digits and `_.-~`.
abbrev pub is_unreserved : ℕ → Bool
is_unreserved c =
    (leb 97 c && leb c 122)
    || (leb 65 c && leb c 90)
    || (leb 48 c && leb c 57)
    || c == b'_'
    || c == b'.'
    || c == b'-'
    || c == b'~'

abbrev upper_hex_digit : ℕ → ℕ
upper_hex_digit d = if ltb d 10 then d + 48 else d + 55

-- A byte that is not unreserved becomes `%XX`.
abbrev quote_byte : ℕ → Text → Text
quote_byte c rest =
    if is_unreserved c
    then c ∷ rest
    else b'%' ∷ upper_hex_digit (c / 16) ∷ upper_hex_digit (c % 16) ∷ rest

-- The UTF-8 bytes of a code point.
abbrev pub utf8_onto : ℕ → (ℕ → Text → Text) → Text → Text
utf8_onto c put rest =
    if ltb c 0x80
    then put c rest
    else if ltb c 0x800
    then put (192 + c / 64) (put (128 + c % 64) rest)
    else if ltb c 0x10000
    then put (224 + c / 4096) (put (128 + c / 64 % 64) (put (128 + c % 64) rest))
    else put (240 + c / 262144)
        (put (128 + c / 4096 % 64) (put (128 + c / 64 % 64) (put (128 + c % 64) rest)))

unfoldable pub quote : Text → Text
quote [] = []
quote (c ∷ s) = let rest = quote s in utf8_onto c quote_byte rest

abbrev hex_digit_value : ℕ → ℕ
hex_digit_value c = if leb c 57 then c - 48 else c - 55

-- A reader of the query: `%XX` is the byte that it names.
unfoldable pub unquote : Text → Text
unquote [] = []
unquote (c ∷ []) = c ∷ []
unquote (c ∷ d ∷ []) = c ∷ d ∷ []
unquote (c ∷ d ∷ e ∷ s) = elim (c == b'%') [
  | true ↦ (hex_digit_value d * 16 + hex_digit_value e) ∷ unquote s
  | false ↦ c ∷ unquote (d ∷ e ∷ s)
]

-- An unreserved character is read back as itself, whatever follows.
pub unquote-plain : (c : ℕ) (s : Text) → (c == b'%') ≡ false → unquote (c ∷ s) ≡ c ∷ unquote s
unfolding unquote
unquote-plain c [] h = refl
unquote-plain c (d ∷ []) h = refl
unquote-plain c (d ∷ e ∷ s) h = ground arith

hex_digit_back : (d : ℕ) → d < 16 → hex_digit_value (upper_hex_digit d) ≡ d
hex_digit_back d h = ground arith

unquote-quote_byte :
    (c : ℕ) (rest : Text) → c < 256 → unquote (quote_byte c rest) ≡ c ∷ unquote rest
unquote-quote_byte c rest h = elim (Bool-cases (is_unreserved c)) [
  | inl plain ↦ rw plain (unquote-plain c rest (ground arith))
  | inr other ↦ rw other (
      unfold unquote in
      rw (hex_digit_back (c / 16) (omega arith), hex_digit_back (c % 16) (omega arith))
        (ap (λ b. b ∷ unquote rest) (omega arith)))
]

-- A quoted ASCII text is read back as it was.
pub unquote-quote : (s : Text) → All (λ c. c < 128) s → unquote (quote s) ≡ s
unfolding quote
unquote-quote [] h = unfold unquote in refl
unquote-quote (c ∷ s) h =
    rw (lt→ltb c 0x80 h.0)
      (unquote-quote_byte c (quote s) (omega arith) ∙ ap (λ t. c ∷ t) (unquote-quote s h.1))

hex_digit-is_unreserved : (d : ℕ) → d < 16 → is_unreserved (upper_hex_digit d) ≡ true
hex_digit-is_unreserved d h = elim (Bool-cases (ltb d 10)) [
  | inl small ↦ rw small (ground arith)
  | inr large ↦ rw large (ground arith)
]

-- What no unreserved character and no `%` has, no character of a quoted ASCII text has.
pub quote-All :
    (bad : ℕ → Bool)
    → ((c : ℕ) → is_unreserved c ≡ true → bad c ≡ false)
    → bad b'%' ≡ false
    → (s : Text) → All (λ c. c < 128) s
    → All (λ c. bad c ≡ false) (quote s)
unfolding quote
quote-All bad good percent [] h = tt
quote-All bad good percent (c ∷ s) (here, later) =
    rw (lt→ltb c 0x80 here) (elim (Bool-cases (is_unreserved c)) [
      | inl plain ↦ rw plain (good c plain, quote-All bad good percent s later)
      | inr other ↦ rw other (
        percent,
        (
          good _ (hex_digit-is_unreserved (c / 16) (omega arith)),
          (
            good _ (hex_digit-is_unreserved (c % 16) (omega arith)),
            quote-All bad good percent s later,
          ),
        ),
      )
    ])

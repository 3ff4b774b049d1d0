-- ===== src/Login/Returned.antt =====
-- Which redirect target comes back from the two pages after a wallet's event.
use satoidc.Common.{
  ℕ, ◌≡◌, ◌<◌, refl, ap, ◌∙◌, Bool, true, false, ◌||◌, ◌&&◌, not, ltb, [], ◌∷◌, ◌++◌, ◌==◌,
  if◌then◌else◌, arith,
}
use satoidc.Common.Rows.{All}
use satoidc.Common.Texts.{Text}
use satoidc.Common.Quoting.{quote, unquote, unquote-quote, unquote-plain, is_unreserved, quote-All}
use satoidc.Login.{encode_query_value}
use satoidc.Login.Page.{login_target, register_target}

-- The characters at which the value of a field of a query ends: `&` and `#`.
abbrev pub ends_value : ℕ → Bool
ends_value c = c == b'&' || c == b'#'

abbrev pub field_value : Text → Text
field_value [] = []
field_value (c ∷ s) = let rest = field_value s in if ends_value c then [] else c ∷ rest

-- The text behind the first `=`, up to the end of the value: what a server reads of the first field.
abbrev pub first_value : Text → Text
first_value [] = []
first_value (c ∷ s) = let rest = first_value s in if c == b'=' then field_value s else rest

-- What the value of a query shows as itself: visible ASCII without the ends of a value, `%` and `+`.
abbrev pub is_plain : ℕ → Bool
is_plain c = ltb 32 c && ltb c 127 && not (ends_value c || c == b'%' || c == b'+')

abbrev pub IsPlain : Text → Type 0
IsPlain s = All (λ c. is_plain c ≡ true) s

abbrev IsWhole : Text → Type 0
IsWhole s = All (λ c. ends_value c ≡ false) s

field_value_whole : (s : Text) → IsWhole s → field_value s ≡ s
field_value_whole [] h = refl
field_value_whole (c ∷ s) (here, later) = rw here (ap (λ t. c ∷ t) (field_value_whole s later))

plain_whole : (c : ℕ) → is_plain c ≡ true → ends_value c ≡ false
plain_whole c h = ground arith

plain_percent : (c : ℕ) → is_plain c ≡ true → (c == b'%') ≡ false
plain_percent c h = ground arith

field_value_cut :
    (a b : Text) (c : ℕ) → IsPlain a → ends_value c ≡ true → field_value (a ++ c ∷ b) ≡ a
field_value_cut [] b c h end = rw end refl
field_value_cut (d ∷ a) b c (here, later) end =
    rw (plain_whole d here) (ap (λ t. d ∷ t) (field_value_cut a b c later end))

unquote_plain : (a : Text) → IsPlain a → unquote a ≡ a
unquote_plain [] h = unfold unquote in refl
unquote_plain (c ∷ a) (here, later) =
    unquote-plain c a (plain_percent c here) ∙ ap (λ t. c ∷ t) (unquote_plain a later)

unreserved_whole : (c : ℕ) → is_unreserved c ≡ true → ends_value c ≡ false
unreserved_whole c h = ground arith

-- What the server reads from the address to which the login page sends the browser.
pub login_target-first_value :
    (target : Text)
    → All (λ c. c < 128) target
    → unquote (first_value (login_target target)) ≡ target
unfolding login_target encode_query_value
login_target-first_value target ascii =
    ap unquote
      (field_value_whole (quote target) (quote-All ends_value unreserved_whole refl target ascii))
    ∙ unquote-quote target ascii

-- A target in ASCII comes back from the login page as it was, whatever is in it. From the registration page only
-- the part of it before a `&` or a `#` comes back, where that part is visible ASCII without `&`, `#`, `%` and `+`,
-- and whatever follows.
pub register_target-first_value :
    (a b target : Text) (c : ℕ)
    → IsPlain a
    → ends_value c ≡ true
    → All (λ c. c < 128) target
    → (unquote (first_value (login_target target)) ≡ target)
      × (unquote (first_value (register_target (a ++ c ∷ b))) ≡ a)
unfolding register_target
register_target-first_value a b target c plain end ascii = (
  login_target-first_value target ascii,
  ap unquote (field_value_cut a b c plain end) ∙ unquote_plain a plain,
)

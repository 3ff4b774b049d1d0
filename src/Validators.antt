-- ===== src/Validators.antt =====
-- satoidc/satoidc/validators.py. A pattern is a sequence of one-character classes with counts and of
-- lookaheads; `accepts` is `fullmatch`. The e-mail check is the validator of Pydantic, a parameter.
pub mod Nickname
pub mod Rules
use satoidc.Common.{
  ℕ, zero, suc, ◌+◌, ◌-◌, Bool, true, false, not, ◌&&◌, ◌||◌, List, [], ◌∷◌, ◌++◌, leb, ◌==◌,
  if◌then◌else◌,
}
use satoidc.Common.Texts.{Text, is_empty}

-- `times p m n` is `[p]{m,n}`, `ahead p` is `(?=.*[p])`, `optional r` is `(?:r)?`.
pub data Pattern : Type 0 where
  end : Pattern
  times : (ℕ → Bool) → ℕ → ℕ → Pattern → Pattern
  ahead : (ℕ → Bool) → Pattern → Pattern
  optional : Pattern → Pattern → Pattern

-- `.` is any character but the line feed.
abbrev pub is_dot : ℕ → Bool
is_dot c = not (c == 10)

-- `.*[p]` matches a beginning of the text.
abbrev pub sees : (ℕ → Bool) → Text → Bool
sees p [] = false
sees p (c ∷ s) = p c || (is_dot c && sees p s)

-- Between `m` and `n` characters of the class, then what `next` accepts.
abbrev pub accepts_times : (ℕ → Bool) → ℕ → ℕ → (Text → Bool) → Text → Bool
accepts_times p zero n next [] = next []
accepts_times p (suc m) n next [] = false
accepts_times p zero zero next (c ∷ s) = next (c ∷ s)
accepts_times p zero (suc n) next (c ∷ s) = next (c ∷ s) || (p c && accepts_times p zero n next s)
accepts_times p (suc m) zero next (c ∷ s) = false
accepts_times p (suc m) (suc n) next (c ∷ s) = p c && accepts_times p m n next s

abbrev pub accepts_then : Pattern → (Text → Bool) → Text → Bool
accepts_then end next s = next s
accepts_then (times p m n r) next s = accepts_times p m n (accepts_then r next) s
accepts_then (ahead p r) next s = sees p s && accepts_then r next s
accepts_then (optional q r) next s = accepts_then q (accepts_then r next) s || accepts_then r next s

-- `bool(pattern.fullmatch(text))`
abbrev pub accepts : Pattern → Text → Bool
accepts r s = accepts_then r is_empty s

abbrev pub in_range : ℕ → ℕ → ℕ → Bool
in_range lo hi c = leb lo c && leb c hi

abbrev pub is_lower_digit : ℕ → Bool
is_lower_digit c = in_range 97 122 c || in_range 48 57 c

-- `^[a-z0-9]{6,30}$`
abbrev pub login_re : Pattern
login_re = times is_lower_digit 6 30 end

-- `[a-z0-9]` under IGNORECASE: with the capitals, and the four letters outside ASCII whose case
-- variants are ASCII letters.
abbrev pub is_alnum : ℕ → Bool
is_alnum c =
    is_lower_digit c || in_range 65 90 c || c == 0x130 || c == 0x131 || c == 0x17f || c == 0x212a

-- `[a-z0-9._-]` under IGNORECASE.
abbrev pub is_nickname_char : ℕ → Bool
is_nickname_char c = is_alnum c || c == b'.' || c == b'_' || c == b'-'

-- `^[a-z0-9](?:[a-z0-9._-]{1,78}[a-z0-9])?$`
abbrev pub nickname_re : Pattern
nickname_re =
    times is_alnum 1 1 (optional (times is_nickname_char 1 78 (times is_alnum 1 1 end)) end)

-- The zeros of the decimal digits of Unicode, each followed by its nine other digits.
abbrev digit_zeros : List ℕ
digit_zeros =
    48 ∷ 1632 ∷ 1776 ∷ 1984 ∷ 2406 ∷ 2534 ∷ 2662 ∷ 2790 ∷ 2918 ∷ 3046 ∷ 3174 ∷ 3302 ∷ 3430 ∷ 3558
    ∷ 3664 ∷ 3792 ∷ 3872 ∷ 4160 ∷ 4240 ∷ 6112 ∷ 6160 ∷ 6470 ∷ 6608 ∷ 6784 ∷ 6800 ∷ 6992 ∷ 7088
    ∷ 7232 ∷ 7248 ∷ 42528 ∷ 43216 ∷ 43264 ∷ 43472 ∷ 43504 ∷ 43600 ∷ 44016 ∷ 65296 ∷ 66720 ∷ 68912
    ∷ 69734 ∷ 69872 ∷ 69942 ∷ 70096 ∷ 70384 ∷ 70736 ∷ 70864 ∷ 71248 ∷ 71360 ∷ 71472 ∷ 71904 ∷ 72016
    ∷ 72784 ∷ 73040 ∷ 73120 ∷ 92768 ∷ 92864 ∷ 93008 ∷ 120782 ∷ 120792 ∷ 120802 ∷ 120812 ∷ 120822
    ∷ 123200 ∷ 123632 ∷ 125264 ∷ 130032 ∷ []

-- `\d`
abbrev within_digits : ℕ → List ℕ → Bool
within_digits c [] = false
within_digits c (z ∷ zs) = in_range z (z + 9) c || within_digits c zs

unfoldable pub is_digit : ℕ → Bool
is_digit c = within_digits c digit_zeros

abbrev pub is_lower_letter : ℕ → Bool
is_lower_letter c = in_range 97 122 c

abbrev pub is_upper_letter : ℕ → Bool
is_upper_letter c = in_range 65 90 c

-- `[^A-Za-z\d]`
unfoldable pub is_special : ℕ → Bool
unfolding is_digit
is_special c = not (is_upper_letter c || is_lower_letter c || is_digit c)

-- `^(?=.*[a-z])(?=.*[A-Z])(?=.*\d)(?=.*[^A-Za-z\d]).{8,128}$`
abbrev pub password_re : Pattern
password_re =
    ahead is_lower_letter
      (ahead is_upper_letter (ahead is_digit (ahead is_special (times is_dot 8 128 end))))

unfoldable pub is_valid_login : Text → Bool
is_valid_login v = accepts login_re v

unfoldable pub is_valid_nickname : Text → Bool
is_valid_nickname v = if is_empty v then true else accepts nickname_re v

unfoldable pub is_valid_password : Text → Bool
unfolding is_special
is_valid_password v = accepts password_re v

-- The keys of the dictionary of errors, in its order.
pub data InvalidField : Type 0 where
  login nickname password email : InvalidField

abbrev pub unless : Bool → InvalidField → List InvalidField
unless true f = []
unless false f = f ∷ []

module _ (is_valid_email : Text → Bool) where
  unfoldable pub validate_registration_form : Text → Text → Text → Text → List InvalidField
  unfolding is_valid_login is_valid_nickname is_valid_password
  validate_registration_form l n p e =
      unless (is_valid_login l) login
      ++ unless (is_valid_nickname n) nickname
      ++ unless (is_valid_password p) password
      ++ unless (is_valid_email e) email

-- ===== src/Common/Uuids.antt =====
-- Python's `UUID`: `UUID(text)`, `.hex` and `str`. A UUID is its 128-bit number. Of the digits that
-- `int(text, 16)` reads, those outside ASCII are left out: no session holds any.
use Prim.Native.Nat.{ℕ, zero, suc, ◌+◌, ◌-◌, ◌*◌, ◌/◌, ◌%◌, ◌^◌}
use mathlib.Core.Bool.{Bool, true, false, ◌&&◌, ◌||◌}
use mathlib.Core.Option.{Option, none, some}
use mathlib.Core.List.{[], ◌∷◌, reverse}
use satoidc.Common.Tests.{leb, ltb, ◌==◌, if◌then◌else◌}
use satoidc.Common.Rows.{length}
use satoidc.Common.Texts.{Text, codes, starts_with, strip}

abbrev pub uuid_limit : ℕ
uuid_limit = 2 ^ 128

-- The lower-case hexadecimal digit of a number below 16.
abbrev pub hex_digit : ℕ → ℕ
hex_digit d = if ltb d 10 then d + 48 else d + 87

-- The value of a hexadecimal digit.
abbrev pub hex_value : ℕ → Option ℕ
hex_value c =
    if leb 48 c && leb c 57
    then some (c - 48)
    else if leb 97 c && leb c 102
    then some (c - 87)
    else if leb 65 c && leb c 70
    then some (c - 55)
    else none

-- The last `k` hexadecimal digits of `n`, then `rest`.
hex_onto : ℕ → ℕ → Text → Text
hex_onto zero n rest = rest
hex_onto (suc k) n rest = hex_onto k (n / 16) (hex_digit (n % 16) ∷ rest)

-- `uuid.hex`
unfoldable pub uuid_hex : ℕ → Text
unfolding hex_onto
uuid_hex n = hex_onto 32 n []

-- `k` characters, then what `rest` makes of the others.
leave : ℕ → (Text → Text) → Text → Text
leave zero rest s = rest s
leave (suc k) rest [] = rest []
leave (suc k) rest (c ∷ s) = c ∷ leave k rest s

-- `str(uuid)`
unfoldable pub uuid_text : ℕ → Text
unfolding uuid_hex leave
uuid_text n =
    let dash : (Text → Text) → Text → Text = λ rest s. b'-' ∷ rest s in
    leave 8 (dash (leave 4 (dash (leave 4 (dash (leave 4 (dash (λ s. s)))))))) (uuid_hex n)

-- `text.replace(p, "")`, with `skip` characters of a match still to drop
remove_from : Text → ℕ → Text → Text
remove_from p skip [] = []
remove_from p (suc k) (c ∷ s) = remove_from p k s
remove_from p zero (c ∷ s) = elim (starts_with p (c ∷ s)) [
  | true ↦ remove_from p (length p - 1) s
  | false ↦ c ∷ remove_from p zero s
]

-- Digits in groups, with single underscores between them.
read_hex : ℕ → Bool → Text → Option ℕ
read_hex acc after_digit [] = if after_digit then some acc else none
read_hex acc after_digit (c ∷ s) = elim (hex_value c) [
  | none ↦ elim (after_digit && c == b'_') [ true ↦ read_hex acc false s | false ↦ none ]
  | some d ↦ read_hex (acc * 16 + d) true s
]

-- The optional prefix 0x, after which an underscore may stand.
read_prefixed : Text → Option ℕ
read_prefixed (a ∷ b ∷ s) =
    if a == b'0' && (b == b'x' || b == b'X')
    then read_hex 0 true s
    else read_hex 0 false (a ∷ b ∷ s)
read_prefixed s = read_hex 0 false s

-- A negative number is no UUID.
zero_only : Option ℕ → Option ℕ
zero_only none = none
zero_only (some n) = if n == 0 then some 0 else none

read_signed : Text → Option ℕ
read_signed [] = none
read_signed (c ∷ s) =
    if c == b'+'
    then read_prefixed s
    else if c == b'-'
    then zero_only (read_prefixed s)
    else read_prefixed (c ∷ s)

is_brace : ℕ → Bool
is_brace c = c == b'{' || c == b'}'

strip_left_braces : Text → Text
strip_left_braces [] = []
strip_left_braces (c ∷ s) = if is_brace c then strip_left_braces s else c ∷ s

strip_braces : Text → Text
strip_braces s = reverse (strip_left_braces (reverse (strip_left_braces s)))

-- `UUID(text)`, with `none` for a `ValueError`
unfoldable pub parse_uuid : Text → Option ℕ
unfolding remove_from read_hex read_prefixed zero_only read_signed is_brace strip_left_braces
    strip_braces strip
parse_uuid text =
    let bare = remove_from (codes "uuid:") 0 (remove_from (codes "urn:") 0 text) in
    let digits = remove_from (codes "-") 0 (strip_braces bare) in
    if length digits == 32 then read_signed (strip digits) else none

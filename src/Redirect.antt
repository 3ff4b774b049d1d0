-- ===== src/Redirect.antt =====
-- `safe_redirect` of satoidc/satoidc/utils.py, with the part of `urllib.parse.urlparse` that it uses.
-- `host_ok` stands for the checks of a host that raise `ValueError`: brackets, and characters that
-- Unicode normalisation turns into delimiters.
pub mod Relative
use satoidc.Common.{
  ℕ, Bool, true, false, not, ◌&&◌, ◌||◌, Option, none, some, List, [], ◌∷◌, ◌++◌, leb, ◌==◌,
  if◌then◌else◌,
}
use satoidc.Common.Texts.{Text, codes, is_empty, starts_with}

abbrev is_letter : ℕ → Bool
is_letter c = (leb 97 c && leb c 122) || (leb 65 c && leb c 90)

-- Letters, digits and `+-.`.
abbrev is_scheme_char : ℕ → Bool
is_scheme_char c = is_letter c || (leb 48 c && leb c 57) || c == b'+' || c == b'-' || c == b'.'

-- `lstrip` of the characters up to the space
abbrev pub drop_controls : Text → Text
drop_controls [] = []
drop_controls (c ∷ s) = if leb c 32 then drop_controls s else c ∷ s

-- Tabs and line ends are taken out anywhere.
abbrev pub drop_breaks : Text → Text
drop_breaks [] = []
drop_breaks (c ∷ s) =
    let rest = drop_breaks s in if c == 9 || c == 10 || c == 13 then rest else c ∷ rest

-- After scheme characters and a colon: what follows the colon.
abbrev after_scheme : Text → Option Text
after_scheme [] = none
after_scheme (c ∷ s) =
    let rest = after_scheme s in
    if c == b':' then some s else if is_scheme_char c then rest else none

-- The text behind a scheme, if there is a scheme.
abbrev split_scheme : Text → Option Text
split_scheme [] = none
split_scheme (c ∷ s) = if is_letter c then after_scheme s else none

-- The characters before the next `/`, `?` or `#`.
abbrev pub host_of : Text → Text
host_of [] = []
host_of (c ∷ s) =
    let rest = host_of s in if c == b'/' || c == b'?' || c == b'#' then [] else c ∷ rest

-- `netloc`: the host after a leading `//`.
abbrev pub split_host : Text → Text
split_host [] = []
split_host (c ∷ []) = []
split_host (c ∷ d ∷ s) = if c == b'/' && d == b'/' then host_of s else []

pub record ParseResult : Type 0 where
  pub has_scheme : Bool
  pub netloc : Text

abbrev of_scheme : Text → Option Text → ParseResult
of_scheme url none = record { has_scheme = false; netloc = split_host url }
of_scheme url (some rest) = record { has_scheme = true; netloc = split_host rest }

unfoldable pub urlparse : Text → ParseResult
urlparse text = let url = drop_breaks (drop_controls text) in of_scheme url (split_scheme url)

pub data RedirectError : Type 0 where
  value_error : RedirectError

module _ (host_ok : Text → Bool) where
  safe_redirect_to : Text → Option Text
  unfolding urlparse
  safe_redirect_to redirect_to =
      let parsed = urlparse redirect_to in
      if not (host_ok parsed.netloc)
      then none
      else if parsed.has_scheme || not (is_empty parsed.netloc)
      then some (codes "/")
      else if not (starts_with (codes "/") redirect_to)
      then some (codes "/")
      else some redirect_to

  -- `none` is a `ValueError`.
  unfoldable pub safe_redirect : Option Text → Option Text
  unfolding safe_redirect_to
  safe_redirect none = some (codes "/")
  safe_redirect (some []) = some (codes "/")
  safe_redirect (some (c ∷ s)) = safe_redirect_to (c ∷ s)

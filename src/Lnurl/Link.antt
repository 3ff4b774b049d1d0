-- ===== src/Lnurl/Link.antt =====
-- satoidc/satoidc/auth/lnurl.py, and the links that the QR codes of the pages hold. The packages bech32 and ecdsa
-- are parameters: `convertbits` and `bech32_encode`, `from_string` and `verify_digest`.
use satoidc.Common.{
  ℕ, ◌+◌, ◌-◌, ◌*◌, Bool, true, false, ◌&&◌, ◌||◌, Option, none, some, List, [], ◌∷◌, ◌++◌, map,
  Outcome, ok, raised, ◌>>=◌, ◌==◌, leb, if◌then◌else◌,
}
use satoidc.Common.Texts.{Text, codes}
use satoidc.Common.Quoting.{utf8_onto}
use satoidc.Common.Uuids.{hex_value}

pub data LinkError : Type 0 where
  assertion_error value_error malformed_point bad_signature_error digest_error : LinkError

-- The bytes of `url.encode("utf-8")`
unfoldable pub utf8 : Text → List ℕ
utf8 [] = []
utf8 (c ∷ s) = let rest = utf8 s in utf8_onto c (λ byte bytes. byte ∷ bytes) rest

abbrev pub upper_char : ℕ → ℕ
upper_char c = if leb b'a' c && leb c b'z' then c - 32 else c

module _ (convertbits : List ℕ → Option (List ℕ)) (bech32_encode : Text → List ℕ → Text) where
  -- `assert bech32_data`
  abbrev pub encode_data : Option (List ℕ) → Outcome LinkError Text
  encode_data none = raised assertion_error
  encode_data (some []) = raised assertion_error
  encode_data (some (d ∷ bits)) = ok (map upper_char (bech32_encode (codes "lnurl") (d ∷ bits)))

  unfoldable pub url_encode : Text → Outcome LinkError Text
  unfolding utf8
  url_encode url = encode_data (convertbits (utf8 url))

abbrev pub callback_path : Text → Text → Text
callback_path k1 action =
    codes "auth/lnurl/callback?tag=login&k1=" ++ (k1 ++ (codes "&action=" ++ action))

-- The address that a wallet calls.
abbrev pub callback_url : Text → Text → Text → Text
callback_url base_url k1 action = base_url ++ callback_path k1 action

abbrev pub is_ascii_space : ℕ → Bool
is_ascii_space c = (leb 9 c && leb c 13) || c == 32

-- `bytes.fromhex`: pairs of digits, with space between the pairs
unfoldable pub from_hex : Text → Outcome LinkError (List ℕ)
from_hex [] = ok []
from_hex (c ∷ []) = if is_ascii_space c then ok [] else raised value_error
from_hex (c ∷ d ∷ s) = elim (is_ascii_space c) [
  | true ↦ from_hex (d ∷ s)
  | false ↦ elim (hex_value c) [
    | none ↦ raised value_error
    | some h ↦ elim (hex_value d) [
      | none ↦ raised value_error
      | some l ↦ from_hex s >>= λ bytes. ok ((h * 16 + l) ∷ bytes)
    ]
  ]
]

module _ {Key : Type 0} (from_string : List ℕ → Outcome LinkError Key)
    (verify_digest : Key → List ℕ → List ℕ → Outcome LinkError Bool) where
  -- Only a bad signature is an answer, the other errors raise.
  abbrev pub answered : Outcome LinkError Bool → Outcome LinkError Bool
  answered (raised bad_signature_error) = ok false
  answered (raised assertion_error) = raised assertion_error
  answered (raised value_error) = raised value_error
  answered (raised malformed_point) = raised malformed_point
  answered (raised digest_error) = raised digest_error
  answered (ok b) = ok b

  unfoldable pub verify : Text → Text → Text → Outcome LinkError Bool
  unfolding from_hex
  verify k1 key sig = do
    digest ← from_hex k1
    point ← from_hex key
    signature ← from_hex sig
    vk ← from_string point
    answered (verify_digest vk signature digest)

-- ===== src/FastApi/Protector.antt =====
-- satoidc/satoidc/fastapi_oauth2/resource_protector.py. `validate_request` is Authlib's check of the token that
-- the request brings for the scopes; its errors have a status, a body and headers.
use satoidc.Common.{
  ℕ, ◌≡◌, refl, Bool, true, false, Option, none, some, List, [], Outcome, ok, raised, inl, inr, ◌⊎◌,
  arith,
}
use satoidc.Common.Texts.{Text}
use satoidc.FastApi.Dict.{Dict, update}

pub data ErrorKind : Type 0 where
  missing_authorization other_oauth2_error : ErrorKind

pub record OAuth2Error (B : Type 0) : Type 0 where
  pub kind : ErrorKind
  pub status_code : ℕ
  pub body : List (Text × B)
  pub headers : List (Text × Text)

pub record HttpException (B : Type 0) : Type 0 where
  pub status_code : ℕ
  pub detail : Dict B
  pub headers : Dict Text

unfoldable pub raise_error_response : {B : Type 0} → OAuth2Error B → HttpException B
raise_error_response error = record {
  status_code = error.status_code;
  detail = update error.body [];
  headers = update error.headers [];
}

-- The token, which the request's state then has.
module _ {B Request Token : Type 0}
    (validate_request : Option Text → Request → Outcome (OAuth2Error B) Token) where
  unfoldable pub acquire_token : Option Text → Request → Outcome (OAuth2Error B) Token
  acquire_token scope request = validate_request scope request

module _ {B Request Token R : Type 0}
    (validate_request : Option Text → Request → Outcome (OAuth2Error B) Token) where
  abbrev pub guarded :
      Outcome (OAuth2Error B) Token
      → (Token → Outcome (OAuth2Error B) R)
      → Outcome (HttpException B) R
  unfolding raise_error_response
  guarded (raised error) block = raised (raise_error_response error)
  guarded (ok token) block = elim (block token) [
    | raised error ↦ raised (raise_error_response error)
    | ok r ↦ ok r
  ]

  -- `with require_oauth.acquire(request, scope) as token`: an error of the block is answered like one of the token.
  unfoldable pub acquire :
      Option Text → Request → (Token → Outcome (OAuth2Error B) R) → Outcome (HttpException B) R
  unfolding acquire_token
  acquire scope request block = guarded (acquire_token validate_request scope request) block

  abbrev pub after_error :
      Bool → (Request → Option Token → R) → Request → OAuth2Error B → Outcome (HttpException B) R
  unfolding raise_error_response
  after_error optional func request error = elim error.kind [
    | missing_authorization ↦ elim optional [
      | true ↦ ok (func request none)
      | false ↦ raised (raise_error_response error)
    ]
    | other_oauth2_error ↦ raised (raise_error_response error)
  ]

  -- The decorated function sees the token in the request's state, or no token.
  unfoldable pub protected :
      Option Text → Bool → (Request → Option Token → R) → Request → Outcome (HttpException B) R
  unfolding acquire_token
  protected scope optional func request = elim (acquire_token validate_request scope request) [
    | ok token ↦ ok (func request (some token))
    | raised error ↦ after_error optional func request error
  ]

  -- A decorated function that answers ran with the token that Authlib accepted for the scopes; or, only where
  -- the protection is optional, without a token for a request that brought none.
  pub protected_lem :
      (scope : Option Text) (optional : Bool) (func : Request → Option Token → R)
      (request : Request) (r : R)
      → protected scope optional func request ≡ ok r
      → ((token : Token) × (validate_request scope request ≡ ok token)
          × (r ≡ func request (some token)))
        ⊎ ((error : OAuth2Error B) × (validate_request scope request ≡ raised error)
            × (error.kind ≡ missing_authorization)
            × (optional ≡ true)
            × (r ≡ func request none))
  unfolding protected acquire_token raise_error_response
  protected_lem scope optional func request r h = tests (validate_request scope request) refl h
    where
      tests :
          (o : Outcome (OAuth2Error B) Token)
          → validate_request scope request ≡ o
          → (elim o [
            | ok token ↦ ok (func request (some token))
            | raised error ↦ after_error optional func request error
          ])
            ≡ ok r
          → ((token : Token) × (validate_request scope request ≡ ok token)
              × (r ≡ func request (some token)))
            ⊎ ((error : OAuth2Error B) × (validate_request scope request ≡ raised error)
                × (error.kind ≡ missing_authorization)
                × (optional ≡ true)
                × (r ≡ func request none))
      tests (ok token) e k = inl (token, e, cc)
      tests (raised error) e k = inr (error, e, ground arith, ground arith, ground arith)

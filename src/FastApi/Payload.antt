-- ===== src/FastApi/Payload.antt =====
-- satoidc/satoidc/fastapi_oauth2/requests.py: the payload of a request, from its query and its cached body.
-- `decode` stands for the decoding of the bytes as UTF-8, `parse_qs` for the standard library's reader of
-- forms with blank values kept, and `loads` for its reader of JSON; a value of JSON is opaque but for lists.
use satoidc.Common.{
  Bool, not, ◌||◌, Option, none, some, List, [], ◌∷◌, map, Outcome, ok, raised, ◌>>=◌, leb, ◌-◌,
  ◌&&◌, if◌then◌else◌, ℕ,
}
use satoidc.Common.Rows.{rows_where}
use satoidc.Common.Texts.{Text, codes, is_empty, text_eq, lower, contains_text}
use satoidc.Permissions.Store.{head_row}
use satoidc.FastApi.Dict.{Dict, get, set, update}

pub data BodyValue (V : Type 0) : Type 0 where
  one : V → BodyValue V
  many : List V → BodyValue V

pub data Json (V : Type 0) : Type 0 where
  object : List (Text × BodyValue V) → Json V
  other : V → Json V

pub data PayloadError : Type 0 where
  unicode_decode_error : PayloadError

-- What is read of Starlette's request. The body is `none` until it has been cached.
pub record Request : Type 0 where
  pub method : Text
  pub content_type : Option Text
  pub query_params : List (Text × Text)
  pub body : Option (List ℕ)

abbrev upper_char : ℕ → ℕ
upper_char c = if leb b'a' c && leb c b'z' then c - 32 else c

-- `method.upper() != "GET"`, for a method in ASCII
abbrev pub has_body_method : Text → Bool
has_body_method method = not (text_eq (map upper_char method) (codes "GET"))

unfoldable pub decode_cached_body : Request → List ℕ
decode_cached_body request = elim request.body [ none ↦ [] | some bytes ↦ bytes ]

abbrev pub content_type_of : Request → Text
content_type_of request = elim request.content_type [ none ↦ [] | some t ↦ lower t ]

abbrev pub ends_with : Text → Text → Bool
ends_with p [] = is_empty p
ends_with p (c ∷ s) = text_eq p (c ∷ s) || ends_with p s

unfoldable pub is_form_urlencoded : Request → Bool
is_form_urlencoded request =
    contains_text (codes "application/x-www-form-urlencoded") (content_type_of request)

unfoldable pub is_json : Request → Bool
is_json request =
    let ct = content_type_of request in
    contains_text (codes "application/json") ct || ends_with (codes "+json") ct

-- The keys of a query, each once.
abbrev pub keys_of : List (Text × Text) → List Text
keys_of [] = []
keys_of ((k, v) ∷ rest) = let ks = keys_of rest in k ∷ rows_where (λ j. not (text_eq k j)) ks

-- `qp.getlist(k)`
abbrev pub getlist : Text → List (Text × Text) → List Text
getlist k [] = []
getlist k ((j, v) ∷ rest) = let vs = getlist k rest in if text_eq k j then v ∷ vs else vs

pub record Loaded (V : Type 0) : Type 0 where
  pub payload_data : Dict (Option V)
  pub datalist : Dict (List V)

module _ {V : Type 0} where
  -- `list(v)` or `[v]`
  abbrev pub values : BodyValue V → List V
  values (one v) = v ∷ []
  values (many vs) = vs

  -- One key of both dictionaries.
  abbrev pub put_values : Text → List V → Loaded V → Loaded V
  put_values k vs l = record {
    payload_data = set k (head_row vs) l.payload_data;
    datalist = set k vs l.datalist;
  }

  abbrev pub load_body : List (Text × BodyValue V) → Loaded V → Loaded V
  load_body [] l = l
  load_body ((k, v) ∷ items) l = load_body items (put_values k (values v) l)

module _ {V : Type 0} (of_text : Text → V) (decode : List ℕ → Outcome PayloadError Text)
    (parse_qs : Text → List (Text × List Text)) (loads : Text → Option (Json V)) where
  -- One value is that value, more are a list.
  abbrev pub flatten : List (Text × List Text) → List (Text × BodyValue V)
  flatten [] = []
  flatten ((k, []) ∷ qs) = flatten qs
  flatten ((k, v ∷ []) ∷ qs) = (k, one (of_text v)) ∷ flatten qs
  flatten ((k, v ∷ w ∷ vs) ∷ qs) = (k, many (map of_text (v ∷ w ∷ vs))) ∷ flatten qs

  -- A body that is not UTF-8 raises.
  unfoldable pub parse_cached_form : Request → Outcome PayloadError (List (Text × BodyValue V))
  unfolding decode_cached_body is_form_urlencoded
  parse_cached_form request =
      let body = decode_cached_body request in
      if is_empty body || not (is_form_urlencoded request)
      then ok []
      else (decode body >>= λ text. ok (update (flatten (parse_qs text)) []))

  abbrev pub object_or_empty : Option (Json V) → List (Text × BodyValue V)
  object_or_empty none = []
  object_or_empty (some (object items)) = update items []
  object_or_empty (some (other v)) = []

  -- A body that is not UTF-8, is no JSON or is no object is an empty one.
  abbrev pub json_of : Outcome PayloadError Text → List (Text × BodyValue V)
  json_of (raised e) = []
  json_of (ok text) = object_or_empty (loads text)

  unfoldable pub parse_cached_json : Request → List (Text × BodyValue V)
  unfolding decode_cached_body is_json
  parse_cached_json request =
      let body = decode_cached_body request in
      if is_empty body || not (is_json request) then [] else json_of (decode body)

  abbrev pub load_query : List Text → List (Text × Text) → Loaded V → Loaded V
  load_query [] qp l = l
  load_query (k ∷ ks) qp l = load_query ks qp (put_values k (map of_text (getlist k qp)) l)

  abbrev pub or_json : Request → List (Text × BodyValue V) → List (Text × BodyValue V)
  unfolding parse_cached_json
  or_json request body = if is_empty body then parse_cached_json request else body

  -- The body's values replace those of the query.
  unfoldable pub load : Request → Outcome PayloadError (Loaded V)
  unfolding parse_cached_form
  load request =
      let from_query =
        load_query (keys_of request.query_params) request.query_params
          record { payload_data = []; datalist = [] } in
      if has_body_method request.method
      then (parse_cached_form request >>= λ body. ok (load_body (or_json request body) from_query))
      else ok from_query

  -- The payload of `FastAPIJsonRequest`
  unfoldable pub json_payload : Request → List (Text × BodyValue V)
  json_payload request = parse_cached_json request

-- The headers of `FastAPIOAuth2Request`
unfoldable pub oauth2_headers : Dict Text → Dict Text
oauth2_headers headers = elim (get (codes "authorization") headers) [
  | none ↦ headers
  | some v ↦ elim (get (codes "Authorization") headers) [
    | none ↦ set (codes "Authorization") v headers
    | some w ↦ headers
  ]
]

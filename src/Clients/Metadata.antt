-- ===== src/Clients/Metadata.antt =====
-- `build_client_metadata` and `update_client_metadata` of satoidc/satoidc/routes/create_client.py, with the
-- `splitlines`, `split` and `urlparse` of Python that they use. `host_ok` stands for a part of `urlparse`.
-- `sorted(set(…))` orders a list of texts by their code points and drops repetitions.
use satoidc.Common.{
  ℕ, Bool, true, false, not, ◌&&◌, Option, none, some, List, [], ◌∷◌, ◌++◌, Outcome, ok, raised,
  ◌>>=◌, ◌==◌, ltb, if◌then◌else◌,
}
use satoidc.Common.Texts.{Text, codes, text_eq, elem_text, is_empty, strip, lower}
use satoidc.Models.{ClientMetadata, OAuth2Client}
use satoidc.Redirect.{urlparse, drop_breaks, drop_controls}
use satoidc.Clients.{is_truthy, timestamp, with_metadata}
use satoidc.Clients.Fields.{or_empty, parse_multiline_values, split, join, parse_scope}

before_colon : Text → Text
before_colon [] = []
before_colon (c ∷ s) = if c == b':' then [] else c ∷ before_colon s

-- `parsed.scheme`, for a text that has one
scheme_of : Text → Text
unfolding before_colon lower
scheme_of value = lower (before_colon (drop_breaks (drop_controls value)))

pub data ClientError : Type 0 where
  validation_error : List Text → ClientError
  value_error : ClientError

abbrev text_lt : Text → Text → Bool
text_lt s [] = false
text_lt [] (d ∷ t) = true
text_lt (c ∷ s) (d ∷ t) = if c == d then text_lt s t else ltb c d

abbrev pub insert_text : Text → List Text → List Text
insert_text t [] = t ∷ []
insert_text t (s ∷ ss) =
    let rest = insert_text t ss in
    if text_eq t s then s ∷ ss else if text_lt t s then t ∷ s ∷ ss else s ∷ rest

-- `sorted(set(texts) - supported)`
abbrev pub unsupported : List Text → List Text → List Text
unsupported supported [] = []
unsupported supported (t ∷ ts) =
    let rest = unsupported supported ts in
    if elem_text t supported then rest else insert_text t rest

abbrev pub supported_grants : List Text
supported_grants = codes "authorization_code" ∷ codes "refresh_token" ∷ []

abbrev pub supported_responses : List Text
supported_responses = codes "code" ∷ []

abbrev pub supported_scopes : List Text
supported_scopes = codes "openid" ∷ codes "profile" ∷ codes "email" ∷ []

abbrev pub supported_methods : List Text
supported_methods = codes "none" ∷ codes "client_secret_basic" ∷ codes "client_secret_post" ∷ []

-- `[message] if bad else []`
abbrev pub error_if : Bool → Text → List Text
error_if true message = message ∷ []
error_if false message = []

-- The form's fields.
pub record ClientForm : Type 0 where
  pub client_name : Option Text
  pub client_uri : Option Text
  pub scope : Option Text
  pub redirect_uri : Option Text
  pub grant_type : Option Text
  pub response_type : Option Text
  pub token_endpoint_auth_method : Option Text

-- `token_endpoint_auth_method or "client_secret_basic"`
abbrev pub method_or_basic : Option Text → Text
method_or_basic none = codes "client_secret_basic"
method_or_basic (some m) = if is_empty m then codes "client_secret_basic" else m

module _ (host_ok : Text → Bool) where
  -- `none` is a `ValueError`.
  unfoldable pub is_absolute_http_url : Text → Outcome ClientError Bool
  unfolding scheme_of
  is_absolute_http_url value =
      let parsed = urlparse value in
      if not (host_ok parsed.netloc)
      then raised value_error
      else ok (
          parsed.has_scheme
          && elem_text (scheme_of value) (codes "http" ∷ codes "https" ∷ [])
          && not (is_empty parsed.netloc))

  unfoldable pub uri_errors : Text → Outcome ClientError (List Text)
  unfolding is_absolute_http_url
  uri_errors uri = if is_empty uri then ok [] else do
    good ← is_absolute_http_url uri
    ok (error_if (not good) (codes "Client URI must be an absolute HTTP(S) URL."))

  unfoldable pub redirect_errors : List Text → Outcome ClientError (List Text)
  unfolding is_absolute_http_url
  redirect_errors [] = ok []
  redirect_errors (r ∷ rs) = do
    good ← is_absolute_http_url r
    rest ← redirect_errors rs
    ok (error_if (not good) (codes "Redirect URI must be an absolute HTTP(S) URL: " ++ r) ++ rest)

  -- The errors about the grants, the responses, the scopes and the method.
  unfoldable pub list_errors : List Text → List Text → Text → Text → List Text
  unfolding split
  list_errors grant_types response_types scopes method =
      let bad_grants = unsupported supported_grants grant_types in
      let bad_responses = unsupported supported_responses response_types in
      let bad_scopes = unsupported supported_scopes (split scopes) in
      error_if (is_empty grant_types) (codes "At least one grant type is required.")
      ++ error_if (not (is_empty bad_grants))
          (codes "Unsupported grant types: " ++ join (codes ", ") bad_grants)
      ++ error_if (is_empty response_types) (codes "At least one response type is required.")
      ++ error_if (not (is_empty bad_responses))
          (codes "Unsupported response types: " ++ join (codes ", ") bad_responses)
      ++ error_if
          (elem_text (codes "code") response_types
            && not (elem_text (codes "authorization_code") grant_types))
          (codes "The code response type requires the authorization_code grant.")
      ++ error_if (is_empty scopes) (codes "At least one scope is required.")
      ++ error_if (not (is_empty bad_scopes))
          (codes "Unsupported scopes: " ++ join (codes ", ") bad_scopes)
      ++ error_if (not (elem_text method supported_methods))
          (codes "Unsupported token endpoint auth method: " ++ method)

  abbrev pub raise_unless_empty : List Text → Outcome ClientError Unit
  raise_unless_empty [] = ok tt
  raise_unless_empty (e ∷ es) = raised (validation_error (e ∷ es))

  abbrev pub built_metadata : ClientForm → ClientMetadata
  built_metadata form = record {
    client_name = some (strip (or_empty form.client_name));
    client_uri = some (strip (or_empty form.client_uri));
    grant_types = some (parse_multiline_values form.grant_type);
    redirect_uris = some (parse_multiline_values form.redirect_uri);
    response_types = some (parse_multiline_values form.response_type);
    scope = some (parse_scope form.scope);
    token_endpoint_auth_method = some (method_or_basic form.token_endpoint_auth_method);
    disabled_at = none;
    updated_at = none;
    client_secret_rotated_at = none;
  }

  unfoldable pub build_client_metadata : ClientForm → Outcome ClientError ClientMetadata
  unfolding uri_errors redirect_errors list_errors
  build_client_metadata form = do
    let redirect_uris = parse_multiline_values form.redirect_uri
    uri_bad ← uri_errors (strip (or_empty form.client_uri))
    redirect_bad ← redirect_errors redirect_uris
    let list_bad =
        list_errors (parse_multiline_values form.grant_type)
          (parse_multiline_values form.response_type) (parse_scope form.scope)
          (method_or_basic form.token_endpoint_auth_method)
    raise_unless_empty (
          error_if (is_empty (strip (or_empty form.client_name))) (codes "Client name is required.")
          ++ uri_bad
          ++ error_if (is_empty redirect_uris) (codes "At least one redirect URI is required.")
          ++ redirect_bad
          ++ list_bad)
        >>= λ _. ok (built_metadata form)

  -- `if current_metadata.get(key): next_metadata[key] = current_metadata[key]`
  abbrev pub if_truthy : Option ℕ → Option ℕ
  if_truthy o = if is_truthy o then o else none

  unfoldable pub update_client_metadata :
      ℕ → OAuth2Client → ClientForm → Option ℕ → Outcome ClientError OAuth2Client
  unfolding build_client_metadata
  update_client_metadata clock client form now = do
    built ← build_client_metadata form
    ok (
        with_metadata client record built {
          disabled_at = if_truthy client.client_metadata.disabled_at;
          client_secret_rotated_at = if_truthy client.client_metadata.client_secret_rotated_at;
          updated_at = some (timestamp now clock);
        })

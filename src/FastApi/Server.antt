-- ===== src/FastApi/Server.antt =====
-- satoidc/satoidc/fastapi_oauth2/authorization_server.py: the server that is configured, and the generators of
-- its tokens. `generate_token` stands for Authlib's drawing of a token of a length, `import_module` for an
-- import with a lookup in it, `dumps` for JSON; a generator takes what Authlib passes to it.
use satoidc.Common.{
  ℕ, Option, none, some, List, [], ◌∷◌, ◌++◌, Outcome, ok, raised, ◌>>=◌, ◌==◌, if◌then◌else◌,
}
use satoidc.Common.Texts.{Text, codes, is_empty}
use satoidc.FastApi.Dict.{Dict, get, update}

pub data ConfigError : Type 0 where
  value_error import_failed : ConfigError

-- The text before the last dot and the text behind it.
abbrev pub rsplit : Text → Option (Text × Text)
rsplit [] = none
rsplit (c ∷ s) = elim (rsplit s) [
  | some (module_path, attr_name) ↦ some (c ∷ module_path, attr_name)
  | none ↦ if c == b'.' then some ([], s) else none
]

-- The values of `OAUTH2_ACCESS_TOKEN_GENERATOR` and `OAUTH2_REFRESH_TOKEN_GENERATOR`.
pub data GeneratorConf (G : Type 0) : Type 0 where
  callable : G → GeneratorConf G
  import_path : Text → GeneratorConf G
  conf_true conf_other : GeneratorConf G

module _ {G : Type 0} (generate_token : ℕ → G)
    (import_module : Text → Text → Outcome ConfigError G) where
  abbrev pub import_parts : Option (Text × Text) → Outcome ConfigError G
  import_parts none = raised value_error
  import_parts (some (module_path, attr_name)) = import_module module_path attr_name

  unfoldable pub import_string : Text → Outcome ConfigError G
  import_string path = import_parts (rsplit path)

  unfoldable pub create_token_generator : GeneratorConf G → ℕ → Outcome ConfigError (Option G)
  create_token_generator (callable g) length = ok (some g)
  create_token_generator (import_path path) length = import_string path >>= λ g. ok (some g)
  create_token_generator conf_true length = ok (some (generate_token length))
  create_token_generator conf_other length = ok none

  -- What the application's configuration says, where it says it.
  pub record Config : Type 0 where
    pub access_token_generator : Option (GeneratorConf G)
    pub refresh_token_generator : Option (GeneratorConf G)
    pub token_expires_in : Option (Dict ℕ)
    pub scopes_supported : Option (List Text)
    pub error_uris : Option (Dict Text)

  abbrev pub conf_or : GeneratorConf G → Option (GeneratorConf G) → GeneratorConf G
  conf_or default none = default
  conf_or default (some conf) = conf

  abbrev pub or_default : Option ℕ → ℕ → ℕ
  or_default none default = default
  or_default (some n) default = n

  -- `if expires_in_conf: data.update(expires_in_conf)`
  abbrev pub configured : Option (Dict ℕ) → Dict ℕ → Dict ℕ
  configured none lifetimes = lifetimes
  configured (some conf) lifetimes = update conf lifetimes

  -- Authlib's table of lifetimes and its default are parameters.
  unfoldable pub create_token_expires_in_generator : Dict ℕ → ℕ → Config → Text → ℕ
  create_token_expires_in_generator grant_types_expires_in default_expires_in config grant_type =
      or_default
        (get grant_type (configured config.token_expires_in (update grant_types_expires_in [])))
        default_expires_in

  -- The parts of `BearerToken`.
  pub record BearerToken : Type 0 where
    pub access_generator : Option G
    pub refresh_generator : Option G
    pub expires_in : Text → ℕ

  unfoldable pub create_bearer_token_generator :
      Dict ℕ → ℕ → Config → Outcome ConfigError BearerToken
  create_bearer_token_generator grant_types_expires_in default_expires_in config = do
    access ← create_token_generator (conf_or conf_true config.access_token_generator) 42
    refresh ← create_token_generator (conf_or conf_other config.refresh_token_generator) 48
    ok (record {
      access_generator = access;
      refresh_generator = refresh;
      expires_in =
          create_token_expires_in_generator grant_types_expires_in default_expires_in config;
    })

-- `get_error_uri`, for an error's name
unfoldable pub get_error_uri : Option (Dict Text) → Text → Option Text
get_error_uri none error = none
get_error_uri (some uris) error = if is_empty uris then none else get error (update uris [])

-- The body of an answer: text, or what is written as JSON.
pub data Body (J : Type 0) : Type 0 where
  text_body : Text → Body J
  json_body : J → Body J

pub record Response : Type 0 where
  pub content : Text
  pub status_code : ℕ
  pub headers : Dict Text

module _ {J : Type 0} (dumps : J → Text) where
  -- A body that is a dictionary or a list gets the content type of JSON, which replaces another one.
  unfoldable pub handle_response : ℕ → Body J → List (Text × Text) → Response
  handle_response status (text_body t) headers = record {
    content = t;
    status_code = status;
    headers = update headers [];
  }
  handle_response status (json_body j) headers = record {
    content = dumps j;
    status_code = status;
    headers = update (headers ++ (codes "content-type", codes "application/json") ∷ []) [];
  }

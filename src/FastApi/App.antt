-- ===== src/FastApi/App.antt =====
-- `app.config` of satoidc/satoidc/__init__.py, and the tokens that it makes the server draw.
use satoidc.Common.{ℕ, ◌≡◌, refl, ap, ◌∙◌, false, none, some, [], ◌∷◌, ◌++◌, Outcome, ok}
use satoidc.Common.Texts.{Text, codes, text_eq}
use satoidc.Settings.{Settings}
use satoidc.FastApi.Dict.{Dict, get, update, last_of, get-update}
use satoidc.FastApi.Server.{
  ConfigError, conf_true, Config, BearerToken, or_default, create_token_generator,
  create_token_expires_in_generator, create_bearer_token_generator,
}

unconfigured :
    (grant_type : Text) (n : ℕ) (lifetimes : Dict ℕ)
    → text_eq grant_type (codes "authorization_code") ≡ false
    → last_of grant_type
        ((codes "authorization_code", n) ∷ [])
        (get grant_type (update lifetimes []))
      ≡ last_of grant_type lifetimes none
unconfigured grant_type n lifetimes other = rw other (get-update grant_type lifetimes [])

module _ {G : Type 0} (generate_token : ℕ → G)
    (import_module : Text → Text → Outcome ConfigError G) where
  -- The keys that the server reads; those for ID tokens are left to the signing keys.
  abbrev pub app_config : Settings → Text → Config generate_token import_module
  app_config env domain = record {
    access_token_generator = none;
    refresh_token_generator = some conf_true;
    token_expires_in = some ((codes "authorization_code", env.oauth2_token_expires_in) ∷ []);
    scopes_supported = none;
    error_uris = some (
        (
          codes "invalid_client",
          codes "https://developer." ++ domain ++ codes "/errors#invalid-client",
        )
        ∷ []);
  }

  -- With the program's configuration the server has both generators, of 42 and of 48 characters; the token of a
  -- code lives as long as the settings say, and that of any other grant as long as Authlib says.
  pub app_config-create_bearer_token_generator :
      (env : Settings) (domain : Text) (lifetimes : Dict ℕ) (default : ℕ)
      → (t : BearerToken generate_token import_module) × (create_bearer_token_generator
            generate_token import_module lifetimes default
            (app_config env domain)
          ≡ ok t)
        × (t.access_generator ≡ some (generate_token 42))
        × (t.refresh_generator ≡ some (generate_token 48))
        × (t.expires_in (codes "authorization_code") ≡ env.oauth2_token_expires_in)
        × ((grant_type : Text)
            → text_eq grant_type (codes "authorization_code") ≡ false
            → t.expires_in grant_type
              ≡ or_default generate_token import_module (last_of grant_type lifetimes none) default)
  unfolding create_bearer_token_generator create_token_generator create_token_expires_in_generator
  app_config-create_bearer_token_generator env domain lifetimes default = (
    record {
      access_generator = some (generate_token 42);
      refresh_generator = some (generate_token 48);
      expires_in =
          create_token_expires_in_generator generate_token import_module lifetimes default
            (app_config env domain);
    },
    refl,
    refl,
    refl,
    ap (λ o. or_default generate_token import_module o default)
        (get-update (codes "authorization_code")
          ((codes "authorization_code", env.oauth2_token_expires_in) ∷ []) (update lifetimes [])),
    (λ grant_type other.
        ap (λ o. or_default generate_token import_module o default)
          (get-update grant_type ((codes "authorization_code", env.oauth2_token_expires_in) ∷ [])
              (update lifetimes [])
            ∙ unconfigured grant_type env.oauth2_token_expires_in lifetimes other)),
  )

-- ===== src/FastApi/Generators.antt =====
-- What the configuration of the server's tokens comes to.
use satoidc.Common.{
  ℕ, ◌≡◌, refl, ap, ◌∙◌, Bool, true, false, none, some, [], ◌∷◌, ◌++◌, Outcome, raised, ◌==◌,
  if◌then◌else◌, arith,
}
use satoidc.Common.Texts.{Text}
use satoidc.FastApi.Dict.{Dict, update, last_of, get-update}
use satoidc.FastApi.Server.{
  ConfigError, value_error, rsplit, import_string, import_parts, Config,
  create_token_expires_in_generator, or_default,
}

abbrev pub has_dot : Text → Bool
has_dot [] = false
has_dot (c ∷ s) = if c == b'.' then true else has_dot s

rsplit-none : (s : Text) → has_dot s ≡ false → rsplit s ≡ none
rsplit-none [] h = refl
rsplit-none (c ∷ s) h = rw (rsplit-none s (ground arith)) (ground arith)

rsplit-some : (m a : Text) → has_dot a ≡ false → rsplit (m ++ b'.' ∷ a) ≡ some (m, a)
rsplit-some [] a h = rw (rsplit-none a h) refl
rsplit-some (c ∷ m) a h = rw (rsplit-some m a h) refl

module _ {G : Type 0} (generate_token : ℕ → G)
    (import_module : Text → Text → Outcome ConfigError G) where
  -- The path of a generator is split at its last dot, whatever stands before it; a path without a dot raises.
  pub import_string_lem :
      (module_path attr_name : Text)
      → has_dot attr_name ≡ false
      → (import_string generate_token import_module (module_path ++ b'.' ∷ attr_name)
          ≡ import_module module_path attr_name)
        × (import_string generate_token import_module attr_name ≡ raised value_error)
  unfolding import_string
  import_string_lem module_path attr_name h = (
    ap (import_parts generate_token import_module) (rsplit-some module_path attr_name h),
    ap (import_parts generate_token import_module) (rsplit-none attr_name h),
  )

  -- The lifetime of a grant's token is the one that the configuration gives for the grant, else
  -- Authlib's for the grant, else the default.
  pub create_token_expires_in_generator_lem :
      (lifetimes : Dict ℕ) (default : ℕ) (config : Config generate_token import_module)
      (conf : Dict ℕ) (grant_type : Text)
      → config.token_expires_in ≡ some conf
      → create_token_expires_in_generator generate_token import_module lifetimes default config
          grant_type
        ≡ or_default generate_token import_module
            (last_of grant_type conf (last_of grant_type lifetimes none))
            default
  unfolding create_token_expires_in_generator
  create_token_expires_in_generator_lem lifetimes default config conf grant_type h = rw h (
      ap (λ o. or_default generate_token import_module o default)
        (get-update grant_type conf (update lifetimes [])
          ∙ ap (last_of grant_type conf) (get-update grant_type lifetimes [])))

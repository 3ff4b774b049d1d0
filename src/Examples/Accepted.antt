-- ===== src/Examples/Accepted.antt =====
-- The client and the ID tokens of the server (satoidc/satoidc/auth/oauth2.py).
use satoidc.Common.{
  ℕ, ◌≡◌, ◌<◌, ◌+◌, refl, Option, none, some, [], ◌∷◌, map, ltb, lt→ltb, if◌then◌else◌, arith,
}
use satoidc.Common.Texts.{Text, codes, text_eq_refl}
use satoidc.Models.{Token}
use satoidc.OidcKeys.Publish.{JwtConfig}
use satoidc.OAuth.IdToken.{Claims, get_client_claims}
use satoidc.Examples.{
  number, text, values, UserInfo, Storage, user_shown, to_provider, token, Arguments, is_valid,
  main, auth,
}

-- The claims as the client reads them out of the token. `id_text` writes an identifier.
unfoldable pub info_of : (Token → Text) → Claims → UserInfo
info_of id_text c =
    (codes "iss", text c.iss)
    ∷ (codes "aud", values (map (λ t. some (id_text t)) c.aud))
    ∷ (codes "iat", number c.iat)
    ∷ (codes "exp", number c.exp)
    ∷ (codes "auth_time", number c.auth_time)
    ∷ []

module _ (int_of_text : Text → Option ℕ) (args : Arguments) (id_text : Token → Text)
    (config : JwtConfig) (client_id : Token) (clock : ℕ)
    (same_client : args.client_id ≡ id_text client_id)
    (same_issuer : args.provider_url ≡ config.iss) where
  abbrev pub signed : UserInfo
  signed = info_of id_text (get_client_claims clock config client_id)

  valid_until : (now : ℕ) → is_valid int_of_text args now signed ≡ ltb now (clock + config.exp)
  unfolding is_valid info_of
  valid_until now =
      rw (same_client, same_issuer)
        (ground (arith, text_eq_refl (id_text client_id), text_eq_refl config.iss))

  -- For a client that is registered under the identifier of the token and asks the issuer of the token, in a browser
  -- whose storage holds no error of an earlier callback: a callback before the token ends makes the page show
  -- the token's claims exactly until it ends; from then on the page drops them and goes to the
  -- provider again.
  pub main-auth :
      (now later : ℕ) (s : Storage)
      → now < clock + config.exp
      → s.oauth_error ≡ none
      → main int_of_text args later (auth int_of_text args now (token (some signed)) s) ≡ (
          if ltb later (clock + config.exp)
          then (user_shown signed, record { user_info = some signed; oauth_error = none })
          else (to_provider, record { user_info = none; oauth_error = none }))
  unfolding main auth
  main-auth now later s early none_yet =
      rw (valid_until now, lt→ltb now (clock + config.exp) early, none_yet, valid_until later) refl

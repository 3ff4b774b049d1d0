-- ===== src/OAuth/Refresh.antt =====
-- The life of a refresh token.
use satoidc.Common.{
  ℕ, ◌+◌, ◌*◌, ◌≡◌, ◌≢◌, ◌≤◌, refl, true, Option, none, some, List, [], ◌∷◌, option_eq, arith,
  Option-cases, inl, inr, ap, ◌∙◌,
}
use satoidc.Common.Rows.{first_where, update_first}
use satoidc.Common.Rows.Every.{first_where_sound}
use satoidc.Models.{Instant, Token, seconds, OAuth2Token}
use satoidc.OAuth.{
  OAuthStore, has_refresh_token, if_active, authenticate_refresh_token, revoke_refresh,
  revoke_old_credential,
}

option_eq_lem : (o : Option ℕ) (t : ℕ) → option_eq o (some t) ≡ true → o ≡ some t
option_eq_lem none t h = cc
option_eq_lem (some n) t h = ground arith

-- A refresh token is accepted only if it is a stored one that has not been revoked, within twice the
-- lifetime of its access token.
pub authenticate_refresh_token_lem :
    (now : Instant) (s : OAuthStore) (t : Token) (row : OAuth2Token)
    → authenticate_refresh_token now s t ≡ some row
    → (row.refresh_token ≡ some t)
      × (row.refresh_token_revoked_at ≡ 0)
      × (now ≤ seconds (row.issued_at + row.expires_in * 2))
unfolding authenticate_refresh_token
authenticate_refresh_token_lem now s t row h =
    elim (Option-cases (first_where (has_refresh_token t) s.tokens)) [
      | inl missing ↦ absurd (ground arith)
      | inr (r, found) ↦
          let same : r ≡ row = ground arith in
          let here = first_where_sound (has_refresh_token t) s.tokens row (found ∙ ap some same) in
          (option_eq_lem row.refresh_token t here, ground arith, ground arith)
    ]

revoked_first :
    (clock t : ℕ) (rows : List OAuth2Token) (now : Instant)
    → clock ≢ 0
    → if_active now (
        first_where
          (has_refresh_token t)
          (update_first (has_refresh_token t) (revoke_refresh clock) rows))
      ≡ none
revoked_first clock t [] now h = refl
revoked_first clock t (x ∷ xs) now h = ground (arith, revoked_first clock t xs now h, h)

-- Once the credential of a refresh token has been revoked, at a time that is not 0, the token is never
-- accepted again.
pub authenticate-revoke_old_credential :
    (clock : ℕ) (now : Instant) (s : OAuthStore) (t : Token)
    → clock ≢ 0
    → authenticate_refresh_token now (revoke_old_credential clock s t) t ≡ none
unfolding authenticate_refresh_token revoke_old_credential
authenticate-revoke_old_credential clock now s t h = revoked_first clock t s.tokens now h

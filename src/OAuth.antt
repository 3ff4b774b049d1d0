-- ===== src/OAuth.antt =====
-- satoidc/satoidc/auth/oauth2.py: what the classes of the OAuth server do with the tables. Authlib calls
-- them; `base_query_client` stands for its query of a client, the clock is that of the call.
pub mod Codes
pub mod IdToken
pub mod Refresh
pub mod Discovery
pub mod Advertised
pub mod Userinfo
use satoidc.Common.{
  ℕ, ◌+◌, Bool, true, false, not, ◌&&◌, ◌||◌, Option, none, some, List, [], ◌∷◌, ◌++◌, ◌==◌,
  if◌then◌else◌, is_some, option_eq, Outcome, ok, raised,
}
use satoidc.Common.Rows.{first_where, update_first, delete_first}
use satoidc.Common.Texts.{Text, codes, contains_text, text_eq}
use satoidc.Common.Uuids.{uuid_text}
use satoidc.Models.{
  Uuid, Instant, Token, User, OAuth2Client, OAuth2AuthorizationCode, is_expired, OAuth2Token,
  is_refresh_token_active,
}
use satoidc.Clients.{is_client_disabled}
use satoidc.OidcKeys.Publish.{JwtConfig}

pub record OAuthStore : Type 0 where
  pub authorization_codes : List OAuth2AuthorizationCode
  pub tokens : List OAuth2Token

-- `query_client` of `config_oauth`: a disabled client is no client.
abbrev enabled : Option OAuth2Client → Option OAuth2Client
unfolding is_client_disabled
enabled none = none
enabled (some client) = if is_client_disabled client then none else some client

unfoldable pub query_client : (Token → Option OAuth2Client) → Token → Option OAuth2Client
unfolding enabled
query_client base_query_client client_id = enabled (base_query_client client_id)

-- The fields of a request's payload that the code grant stores.
pub record Payload : Type 0 where
  pub redirect_uri : Option Text
  pub scope : Option Text
  pub nonce : Option Token
  pub code_challenge : Option Token
  pub code_challenge_method : Option Text

abbrev pub has_nonce : Token → Option Token → OAuth2AuthorizationCode → Bool
has_nonce client_id nonce c = c.client_id == client_id && option_eq c.nonce nonce

unfoldable pub exists_nonce : OAuthStore → Token → Token → Bool
exists_nonce s nonce client_id =
    is_some (first_where (has_nonce client_id (some nonce)) s.authorization_codes)

-- `UserInfo`: the claims that are set.
pub record UserInfo : Type 0 where
  pub sub : Text
  pub email : Option (Option Text)
  pub name : Option Text
  pub lnurl_pubkey : Option (Option Token)

unfoldable pub generate_user_info : User → Text → UserInfo
generate_user_info user scope = record {
  sub = uuid_text user.id;
  email = if contains_text (codes "email") scope then some user.email else none;
  name = if contains_text (codes "profile") scope then some user.nickname else none;
  lnurl_pubkey = if contains_text (codes "profile") scope then some user.lnurl_pubkey else none;
}

-- The `IntegrityError` of the commit: the column `code` is unique in the table.
pub data OAuthError : Type 0 where
  duplicate_code : OAuthError

abbrev pub has_code : Token → OAuth2AuthorizationCode → Bool
has_code code c = c.code == code

-- The time of the authentication is set by Authlib's mixin, in seconds.
abbrev pub new_code : ℕ → Token → Token → Payload → Uuid → OAuth2AuthorizationCode
new_code clock code client_id payload user_id = record {
  user_id = user_id;
  code = code;
  client_id = client_id;
  redirect_uri = payload.redirect_uri;
  scope = payload.scope;
  nonce = payload.nonce;
  auth_time = clock;
  code_challenge = payload.code_challenge;
  code_challenge_method = payload.code_challenge_method;
}

unfoldable pub save_authorization_code :
    ℕ
    → OAuthStore
    → Token
    → Token
    → Payload
    → Uuid
    → Outcome OAuthError (OAuth2AuthorizationCode × OAuthStore)
save_authorization_code clock s code client_id payload user_id =
    let c = new_code clock code client_id payload user_id in
    if is_some (first_where (has_code code) s.authorization_codes)
    then raised duplicate_code
    else ok (c, record s { authorization_codes = s.authorization_codes ++ c ∷ [] })

abbrev pub is_code_of : Token → Token → OAuth2AuthorizationCode → Bool
is_code_of code client_id c = c.code == code && c.client_id == client_id

abbrev pub unexpired : Instant → Option OAuth2AuthorizationCode → Option OAuth2AuthorizationCode
unexpired now none = none
unexpired now (some c) = if is_expired c now then none else some c

unfoldable pub query_authorization_code :
    Instant → OAuthStore → Token → Token → Option OAuth2AuthorizationCode
query_authorization_code now s code client_id =
    unexpired now (first_where (is_code_of code client_id) s.authorization_codes)

-- The row of the code that has been queried.
unfoldable pub delete_authorization_code : OAuthStore → OAuth2AuthorizationCode → OAuthStore
delete_authorization_code s c = record s {
  authorization_codes = delete_first (is_code_of c.code c.client_id) s.authorization_codes;
}

-- `authenticate_user` of both grants
unfoldable pub authenticate_user : List User → Uuid → Option User
authenticate_user users user_id = first_where (λ u. u.id == user_id) users

abbrev pub has_refresh_token : Token → OAuth2Token → Bool
has_refresh_token t row = option_eq row.refresh_token (some t)

abbrev pub has_access_token : Token → OAuth2Token → Bool
has_access_token t row = row.access_token == t

abbrev pub if_active : Instant → Option OAuth2Token → Option OAuth2Token
if_active now none = none
if_active now (some t) = if is_refresh_token_active t now then some t else none

unfoldable pub authenticate_refresh_token : Instant → OAuthStore → Token → Option OAuth2Token
authenticate_refresh_token now s refresh_token =
    if_active now (first_where (has_refresh_token refresh_token) s.tokens)

abbrev pub revoke_refresh : ℕ → OAuth2Token → OAuth2Token
revoke_refresh clock t = record t { refresh_token_revoked_at = clock }

-- The row of the credential, which has been queried by its refresh token.
unfoldable pub revoke_old_credential : ℕ → OAuthStore → Token → OAuthStore
revoke_old_credential clock s refresh_token = record s {
  tokens = update_first (has_refresh_token refresh_token) (revoke_refresh clock) s.tokens;
}

pub data TokenTypeHint : Type 0 where
  access_token_hint refresh_token_hint no_hint : TokenTypeHint

abbrev pub or_refresh : OAuthStore → Token → Option OAuth2Token → Option OAuth2Token
or_refresh s t (some row) = some row
or_refresh s t none = first_where (has_refresh_token t) s.tokens

unfoldable pub query_token : OAuthStore → Token → TokenTypeHint → Option OAuth2Token
query_token s t access_token_hint = first_where (has_access_token t) s.tokens
query_token s t refresh_token_hint = first_where (has_refresh_token t) s.tokens
query_token s t no_hint = or_refresh s t (first_where (has_access_token t) s.tokens)

pub record Introspection : Type 0 where
  pub active : Bool
  pub client_id : Token
  pub token_type : Text
  pub username : Text
  pub scope : Text
  pub sub : Text
  pub aud : Token
  pub iss : Text
  pub exp : ℕ
  pub iat : ℕ

unfoldable pub introspect_token : Text → OAuth2Token → Introspection
introspect_token issuer t = record {
  active = true;
  client_id = t.client_id;
  token_type = t.token_type;
  username = uuid_text t.user_id;
  scope = t.scope;
  sub = uuid_text t.user_id;
  aud = t.client_id;
  iss = issuer;
  exp = t.issued_at + t.expires_in;
  iat = t.issued_at;
}

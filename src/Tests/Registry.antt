-- ===== src/Tests/Registry.antt =====
-- Clients, codes and tokens.
use satoidc.Common.{
  List, [], ◌∷◌, ◌==◌, ◌&&◌, ◌≡◌, ◌≤◌, ◌<◌, refl, none, some, Outcome, ok, raised, arith,
}
use satoidc.Common.Texts.{codes}
use satoidc.Common.Rows.{count_where}
use satoidc.Models.{OAuth2Client, OAuth2AuthorizationCode, seconds}
use satoidc.Redirect.{urlparse}
use satoidc.Clients.Metadata.{
  ClientForm, ClientError, build_client_metadata, update_client_metadata, built_metadata,
}
use satoidc.Clients.Fields.{parse_multiline_values, parse_scope}
use satoidc.Clients.Checked.{IsRegistrable, build_client_metadata-IsRegistrable}
use satoidc.Common.Uuids.{parse_uuid}
use satoidc.Clients.Creation.{submit}
use satoidc.Dashboard.Developer.{client_updated, save}
use satoidc.Dashboard.Dialog.{edit_client_form}
use satoidc.Dashboard.Reopened.{dated, save-edit_client_form}
use satoidc.OAuth.{
  OAuthStore, Payload, new_code, save_authorization_code, query_authorization_code,
  delete_authorization_code, authenticate_refresh_token, revoke_old_credential,
}
use satoidc.OAuth.Codes.{query_authorization_code-save, query-delete_authorization_code}
use satoidc.OAuth.Refresh.{authenticate-revoke_old_credential}
use satoidc.Tests.Data.{alice_text, any_host, client, alice_id, refresh_row}

abbrev form : ClientForm
form = record {
  client_name = some (codes "App");
  client_uri = none;
  scope = some (codes "openid email");
  redirect_uri = some (codes "https://a.b/c");
  grant_type = some (codes "authorization_code");
  response_type = some (codes "code");
  token_endpoint_auth_method = none;
}

builds : build_client_metadata any_host form ≡ ok (built_metadata any_host form)
unfolding build_client_metadata parse_multiline_values parse_scope urlparse
builds = refl

build_client_metadata-IsRegistrable_example : IsRegistrable any_host (built_metadata any_host form)
build_client_metadata-IsRegistrable_example =
    build_client_metadata-IsRegistrable any_host form (built_metadata any_host form) builds

abbrev client_or : Outcome ClientError OAuth2Client → OAuth2Client
client_or (ok c) = c
client_or (raised e) = client

abbrev edited : OAuth2Client
edited = client_or (update_client_metadata any_host 50 client form none)

edits : update_client_metadata any_host 50 client form none ≡ ok edited
unfolding update_client_metadata build_client_metadata parse_multiline_values parse_scope urlparse
edits = refl

abbrev registered : OAuth2Client
registered = record client {
  client_metadata = dated any_host form (built_metadata any_host form) (some 9) (some 0) (some 0);
}

save-edit_client_form_example :
    save any_host 50 8 (edit_client_form registered) registered (registered ∷ [])
    ≡ ok record {
      shown = client_updated;
      copy = record registered {
        client_metadata =
            dated any_host form (built_metadata any_host form) (some 9) (some 50) none;
      };
      clients =
          record registered {
            client_metadata =
                dated any_host form (built_metadata any_host form) (some 9) (some 50) none;
          }
          ∷ [];
    }
save-edit_client_form_example =
    save-edit_client_form any_host form (built_metadata any_host form) registered (some 9) (some 0)
      (some 0) builds refl 50 8 (registered ∷ []) refl refl

abbrev empty_store : OAuthStore
empty_store = record { authorization_codes = []; tokens = refresh_row ∷ [] }

abbrev payload : Payload
payload = record {
  redirect_uri = some (codes "https://a.b/c");
  scope = some (codes "openid");
  nonce = some 31;
  code_challenge = none;
  code_challenge_method = none;
}

abbrev saved : OAuth2AuthorizationCode × OAuthStore
saved =
    let c = new_code 100 30 4 payload alice_id in
    (c, record empty_store { authorization_codes = c ∷ [] })

query_authorization_code-save_example :
    (c : OAuth2AuthorizationCode) × (s' : OAuthStore) × (save_authorization_code 100 empty_store 30
        4 payload alice_id
      ≡ ok (c, s'))
    × (200 ≤ seconds 400 → query_authorization_code 200 s' 30 4 ≡ some c)
    × (seconds 400 < 200 → query_authorization_code 200 s' 30 4 ≡ none)
query_authorization_code-save_example =
    query_authorization_code-save 100 200 empty_store 30 4 payload alice_id refl

queries : query_authorization_code 200 saved.1 30 4 ≡ some saved.0
unfolding query_authorization_code
queries = refl

one_code : count_where (λ c. c.code == 30 && c.client_id == 4) saved.1.authorization_codes ≤ 1
one_code = omega arith

query-delete_authorization_code_example :
    query_authorization_code 300 (delete_authorization_code saved.1 saved.0) 30 4 ≡ none
query-delete_authorization_code_example =
    query-delete_authorization_code 200 300 saved.1 30 4 saved.0 one_code queries

accepts_refresh : authenticate_refresh_token 200 empty_store 21 ≡ some refresh_row
unfolding authenticate_refresh_token
accepts_refresh = refl

authenticate-revoke_old_credential_example :
    authenticate_refresh_token 300 (revoke_old_credential 5 empty_store 21) 21 ≡ none
authenticate-revoke_old_credential_example =
    authenticate-revoke_old_credential 5 300 empty_store 21 (λ e. omega arith)

abbrev made_or :
    Outcome ClientError (OAuth2Client × List OAuth2Client) → OAuth2Client × List OAuth2Client
made_or (ok c) = c
made_or (raised e) = (client, [])

abbrev made : OAuth2Client × List OAuth2Client
made = made_or (submit any_host 40 41 60 (client ∷ []) (some alice_text) form)

submits : submit any_host 40 41 60 (client ∷ []) (some alice_text) form ≡ ok (made.0, made.1)
unfolding submit build_client_metadata parse_multiline_values parse_scope urlparse parse_uuid
submits = refl

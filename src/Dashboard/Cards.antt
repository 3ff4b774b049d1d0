-- ===== src/Dashboard/Cards.antt =====
-- What the page `/dashboard/developer` shows of the clients of its user. `id_text` writes an identifier, which
-- the column of Authlib repeats.
use satoidc.Common.{Option, none, some, List, [], ◌∷◌, Outcome, ok, ◌>>=◌, ◌==◌, if◌then◌else◌}
use satoidc.Common.Rows.{rows_where}
use satoidc.Common.Texts.{Text, codes}
use satoidc.Models.{Token, OAuth2Client}
use satoidc.Clients.{is_client_disabled}
use satoidc.Clients.Metadata.{ClientError}
use satoidc.Clients.Fields.{join}
use satoidc.Clients.Creation.{owner_of}
use satoidc.Dashboard.{or_else}

-- The clients of the session's user.
unfoldable pub clients_of :
    Option Text → List OAuth2Client → Outcome ClientError (List OAuth2Client)
clients_of session_user_id clients = do
  uid ← owner_of session_user_id
  ok (rows_where (λ c. c.user_id == uid) clients)

-- A row of the table of clients.
pub record ClientRow : Type 0 where
  pub name : Text
  pub client_id : Token
  pub status : Text
  pub auth_method : Text
  pub scope : Text
  pub redirect_uris : Text

-- `metadata.get(key, "-")`
abbrev pub or_dash : Option Text → Text
or_dash none = codes "-"
or_dash (some t) = t

abbrev pub lines_of : Option (List Text) → Text
lines_of none = []
lines_of (some ts) = join (10 ∷ []) ts

unfoldable pub client_row : (Token → Text) → OAuth2Client → ClientRow
client_row id_text client =
    let m = client.client_metadata in
    record {
      name = or_else m.client_name (id_text client.client_id);
      client_id = client.client_id;
      status = if is_client_disabled client then codes "disabled" else codes "active";
      auth_method = or_dash m.token_endpoint_auth_method;
      scope = or_dash m.scope;
      redirect_uris = or_else (some (lines_of m.redirect_uris)) (codes "-");
    }

-- "Configured" or "Public client"
unfoldable pub secret_text : OAuth2Client → Text
secret_text client = if client.client_secret == 0 then codes "Public client" else codes "Configured"

-- The card of a client.
pub record ClientCard : Type 0 where
  pub title : Text
  pub status : Text
  pub toggle : Text
  pub fields : List (Text × Text)
  pub uris : List Text

abbrev pub uris_of : Option (List Text) → List Text
uris_of none = []
uris_of (some uris) = uris

unfoldable pub client_card : (Token → Text) → OAuth2Client → ClientCard
unfolding secret_text
client_card id_text client =
    let m = client.client_metadata in
    record {
      title = or_else m.client_name (id_text client.client_id);
      status = if is_client_disabled client then codes "Client disabled" else codes "Client active";
      toggle = if is_client_disabled client then codes "Enable" else codes "Disable";
      fields =
          (codes "Client ID", id_text client.client_id)
          ∷ (codes "Auth method", or_dash m.token_endpoint_auth_method)
          ∷ (codes "Scope", or_dash m.scope)
          ∷ (codes "Client URI", or_dash m.client_uri)
          ∷ (codes "Secret", secret_text client)
          ∷ [];
      uris = uris_of m.redirect_uris;
    }

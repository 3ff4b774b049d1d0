-- ===== src/Dashboard/Dialog.antt =====
-- The dialog that edits a client (satoidc/satoidc/routes/dashboard.py), as it opens.
use satoidc.Common.{some}
use satoidc.Models.{OAuth2Client}
use satoidc.Clients.Fields.{or_empty}
use satoidc.Clients.Metadata.{ClientForm, method_or_basic}
use satoidc.Dashboard.Cards.{lines_of}

-- What the fields hold before anything is typed.
unfoldable pub edit_client_form : OAuth2Client → ClientForm
edit_client_form client =
    let m = client.client_metadata in
    record {
      client_name = some (or_empty m.client_name);
      client_uri = some (or_empty m.client_uri);
      scope = some (or_empty m.scope);
      redirect_uri = some (lines_of m.redirect_uris);
      grant_type = some (lines_of m.grant_types);
      response_type = some (lines_of m.response_types);
      token_endpoint_auth_method = some (method_or_basic m.token_endpoint_auth_method);
    }

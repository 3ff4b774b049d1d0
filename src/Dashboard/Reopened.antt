-- ===== src/Dashboard/Reopened.antt =====
-- The dialog of a client saved as it opens.
use satoidc.Common.{
  ℕ, ◌≡◌, refl, sym, ap, ◌∙◌, Bool, true, false, Option, none, some, List, ok, inl, inr, arith,
  Bool-cases, ◌==◌,
}
use satoidc.Common.Rows.{first_where, update_first}
use satoidc.Common.Stripping.{strip-strip}
use satoidc.Common.Texts.{Text, codes, strip}
use satoidc.Models.{Token, ClientMetadata, OAuth2Client}
use satoidc.Clients.{is_public_method}
use satoidc.Clients.Fields.{or_empty, parse_multiline_values, parse_scope, join}
use satoidc.Clients.Lines.{parse_multiline_values-join}
use satoidc.Clients.Scopes.{parse_scope-parse_scope}
use satoidc.Clients.Metadata.{
  ClientForm, method_or_basic, build_client_metadata, update_client_metadata, if_truthy,
}
use satoidc.Clients.Checked.{build_client_metadata_lem}
use satoidc.Dashboard.Developer.{client_updated, has_number, save, save_secret}
use satoidc.Dashboard.Dialog.{edit_client_form}
use satoidc.Dashboard.Kept.{IsSecreted}

-- The form that a dialog shows for the data made of a form.
shown_form : ClientForm → ClientForm
shown_form form = record {
  client_name = some (strip (or_empty form.client_name));
  client_uri = some (strip (or_empty form.client_uri));
  scope = some (parse_scope form.scope);
  redirect_uri = some (join (codes "\n") (parse_multiline_values form.redirect_uri));
  grant_type = some (join (codes "\n") (parse_multiline_values form.grant_type));
  response_type = some (join (codes "\n") (parse_multiline_values form.response_type));
  token_endpoint_auth_method = some (method_or_basic form.token_endpoint_auth_method);
}

method_lem : (o : Option Text) → method_or_basic (some (method_or_basic o)) ≡ method_or_basic o
method_lem none = refl
method_lem (some m) = ground arith

module _ (host_ok : Text → Bool) (form : ClientForm) where
  -- Nothing that is read of the form changes when it is shown and read again.
  build-shown_form :
      build_client_metadata host_ok (shown_form form) ≡ build_client_metadata host_ok form
  unfolding build_client_metadata shown_form
  build-shown_form =
      rw
        (
          strip-strip (or_empty form.client_name),
          strip-strip (or_empty form.client_uri),
          parse_scope-parse_scope form.scope,
          parse_multiline_values-join form.redirect_uri,
          parse_multiline_values-join form.grant_type,
          parse_multiline_values-join form.response_type,
          method_lem form.token_endpoint_auth_method,
        )
        refl

  -- The data made of the form, with the dates that the handlers add.
  abbrev pub dated : ClientMetadata → Option ℕ → Option ℕ → Option ℕ → ClientMetadata
  dated m disabled_at updated_at rotated_at = record m {
    disabled_at = disabled_at;
    updated_at = updated_at;
    client_secret_rotated_at = rotated_at;
  }

  module _ (m : ClientMetadata) (client : OAuth2Client)
      (disabled_at updated_at rotated_at : Option ℕ)
      (accepted : build_client_metadata host_ok form ≡ ok m)
      (data_of : client.client_metadata ≡ dated m disabled_at updated_at rotated_at) where
    opened : edit_client_form client ≡ shown_form form
    unfolding edit_client_form shown_form
    opened =
        rw
          (
            data_of,
            build_client_metadata_lem host_ok form m accepted,
            method_lem form.token_endpoint_auth_method,
          )
          refl

    abbrev pub touched : ℕ → OAuth2Client → OAuth2Client
    touched clock c = record c {
      client_metadata =
          dated m (if_truthy host_ok disabled_at) (some clock) (if_truthy host_ok rotated_at);
    }

    update_opened :
        (clock : ℕ)
        → update_client_metadata host_ok clock client (edit_client_form client) none
          ≡ ok (touched clock client)
    unfolding update_client_metadata
    update_opened clock = rw (opened, build-shown_form, accepted, data_of) refl

    method_of :
        is_public_method 0 m.token_endpoint_auth_method
        ≡ is_public_method 0 client.client_metadata.token_endpoint_auth_method
    method_of = ap (λ d. is_public_method 0 d.token_endpoint_auth_method) (sym data_of)

    kept_secret :
        (clock : ℕ) (drawn : Token) (clients : List OAuth2Client)
        → IsSecreted client
        → first_where (has_number client.id) clients ≡ some client
        → save_secret host_ok clock drawn (touched clock client) clients
          ≡ ok record {
            shown = client_updated;
            copy = touched clock client;
            clients = update_first (has_number client.id) (touched clock) clients;
          }
    kept_secret clock drawn clients secreted found = elim (Bool-cases (client.client_secret == 0)) [
      | inl empty ↦
          let public : is_public_method 0 m.token_endpoint_auth_method ≡ true =
            method_of ∙ (secreted ∙ empty) in
          let absent : client.client_secret ≡ 0 = ground (arith, empty) in
          rw (public, absent, found) refl
      | inr secret ↦
          let confidential : is_public_method 0 m.token_endpoint_auth_method ≡ false =
            method_of ∙ (secreted ∙ secret) in
          rw (confidential, secret, found) refl
    ]

    -- For a client that has the data of an accepted form, with any dates, and an empty secret exactly if its
    -- method of authentication is `none`, the dialog saved as it opens is accepted: the row keeps its data, its
    -- secret and its dates of disabling and rotation, a date of 0 is dropped, and the time of the update is set.
    pub save-edit_client_form :
        (clock : ℕ) (drawn : Token) (clients : List OAuth2Client)
        → IsSecreted client
        → first_where (has_number client.id) clients ≡ some client
        → save host_ok clock drawn (edit_client_form client) client clients
          ≡ ok record {
            shown = client_updated;
            copy = touched clock client;
            clients = update_first (has_number client.id) (touched clock) clients;
          }
    unfolding save
    save-edit_client_form clock drawn clients secreted found =
        rw (update_opened clock) (kept_secret clock drawn clients secreted found)

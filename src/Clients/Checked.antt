-- ===== src/Clients/Checked.antt =====
-- What the data of an accepted client form satisfies.
use satoidc.Common.{
  ◌≡◌, refl, ap, subst, ◌∙◌, Bool, true, false, not, ◌&&◌, some, List, [], ◌∷◌, ◌++◌, ok, >>=-ok,
  ok_value, arith,
}
use satoidc.Common.Rows.{All}
use satoidc.Common.Texts.{Text, codes, is_empty, elem_text, strip}
use satoidc.Models.{ClientMetadata}
use satoidc.Clients.Metadata.{
  ClientForm, method_or_basic, is_absolute_http_url, uri_errors, redirect_errors, list_errors,
  error_if, raise_unless_empty, built_metadata, build_client_metadata, unsupported, insert_text,
  supported_grants, supported_responses, supported_scopes, supported_methods,
}
use satoidc.Clients.Fields.{or_empty, parse_multiline_values, parse_scope, split}

-- Every text is supported.
abbrev pub Within : List Text → List Text → Type 0
Within supported ts = All (λ t. elem_text t supported ≡ true) ts

-- The data as the form was filled in, and what the checks promise of it.
pub record IsRegistrable (host_ok : Text → Bool) (m : ClientMetadata) : Type 0 where
  pub name : Text
  pub redirects : List Text
  pub grants : List Text
  pub responses : List Text
  pub scopes : Text
  pub method : Text
  pub named : (m.client_name ≡ some name) × (is_empty name ≡ false)
  pub redirected :
      (m.redirect_uris ≡ some redirects)
      × (is_empty redirects ≡ false)
      × All (λ r. is_absolute_http_url host_ok r ≡ ok true) redirects
  pub granted :
      (m.grant_types ≡ some grants) × (is_empty grants ≡ false) × Within supported_grants grants
  pub responded :
      (m.response_types ≡ some responses)
      × (is_empty responses ≡ false)
      × Within supported_responses responses
  pub scoped :
      (m.scope ≡ some scopes) × (is_empty scopes ≡ false) × Within supported_scopes (split scopes)
  pub code_grant :
      elem_text (codes "code") responses && not (elem_text (codes "authorization_code") grants)
      ≡ false
  pub authenticated :
      (m.token_endpoint_auth_method ≡ some method) × (elem_text method supported_methods ≡ true)

append_nil : (xs ys : List Text) → xs ++ ys ≡ [] → (xs ≡ []) × (ys ≡ [])
append_nil [] ys h = (refl, h)
append_nil (x ∷ xs) ys h = cc

error_if_nil : (b : Bool) (t : Text) → error_if b t ≡ [] → b ≡ false
error_if_nil true t h = cc
error_if_nil false t h = refl

not-not : (b : Bool) → not b ≡ false → b ≡ true
not-not true h = refl
not-not false h = cc

insert_nonempty : (t : Text) (ts : List Text) → is_empty (insert_text t ts) ≡ false
insert_nonempty t [] = refl
insert_nonempty t (s ∷ ss) = ground arith

unsupported-Within :
    (supported ts : List Text) → is_empty (unsupported supported ts) ≡ true → Within supported ts
unsupported-Within supported [] h = tt
unsupported-Within supported (t ∷ ts) h =
    ground (arith, unsupported-Within supported ts, insert_nonempty t (unsupported supported ts))

module _ (host_ok : Text → Bool) where
  redirect_errors_lem :
      (rs : List Text)
      → redirect_errors host_ok rs ≡ ok []
      → All (λ r. is_absolute_http_url host_ok r ≡ ok true) rs
  unfolding redirect_errors
  redirect_errors_lem [] h = tt
  redirect_errors_lem (r ∷ rs) h =
      let (good, e, k) = >>=-ok (is_absolute_http_url host_ok r) _ h in
      let (rest, e', k') = >>=-ok (redirect_errors host_ok rs) _ k in
      let nil : error_if (not good) (codes "Redirect URI must be an absolute HTTP(S) URL: " ++ r)
            ++ rest
          ≡ [] =
        cc in
      let (now, later) = append_nil _ rest nil in
      (
        e ∙ ap ok (not-not good (error_if_nil (not good) _ now)),
        redirect_errors_lem rs (e' ∙ ap ok later),
      )

  raise_lem : (es : List Text) → raise_unless_empty host_ok es ≡ ok tt → es ≡ []
  raise_lem [] h = refl
  raise_lem (e ∷ es) h = cc

  -- A client form is only accepted with a name, with redirect URIs that all are absolute HTTP(S) URLs, with
  -- grant types, response types and scopes that all are supported and none of them missing, with the
  -- authorization_code grant if it has the code response type, and with a supported method of
  -- authentication.
  pub build_client_metadata-IsRegistrable :
      (form : ClientForm) (m : ClientMetadata)
      → build_client_metadata host_ok form ≡ ok m
      → IsRegistrable host_ok m
  unfolding build_client_metadata list_errors
  build_client_metadata-IsRegistrable form m h =
      let (uri_bad, e, k) = >>=-ok (uri_errors host_ok (strip (or_empty form.client_uri))) _ h in
      let (redirect_bad, e', k') =
        >>=-ok (redirect_errors host_ok (parse_multiline_values form.redirect_uri)) _ k in
      let (_, raised_none, built) =
        >>=-ok (raise_unless_empty host_ok _) (λ _. ok (built_metadata host_ok form)) k' in
      let nil = raise_lem _ raised_none in
      let (nil, lists) = append_nil _ _ nil in
      let (nil, redirects) = append_nil _ _ nil in
      let (nil, some_redirect) = append_nil _ _ nil in
      let (name, _) = append_nil _ _ nil in
      let (lists, method) = append_nil _ _ lists in
      let (lists, good_scopes) = append_nil _ _ lists in
      let (lists, scopes) = append_nil _ _ lists in
      let (lists, code) = append_nil _ _ lists in
      let (lists, good_responses) = append_nil _ _ lists in
      let (lists, responses) = append_nil _ _ lists in
      let (grants, good_grants) = append_nil _ _ lists in
      subst (IsRegistrable host_ok) {x = built_metadata host_ok form} (ok_value built refl) record {
        name = strip (or_empty form.client_name);
        redirects = parse_multiline_values form.redirect_uri;
        grants = parse_multiline_values form.grant_type;
        responses = parse_multiline_values form.response_type;
        scopes = parse_scope form.scope;
        method = method_or_basic form.token_endpoint_auth_method;
        named = (refl, error_if_nil _ _ name);
        redirected =
            (refl, error_if_nil _ _ some_redirect, redirect_errors_lem _ (e' ∙ ap ok redirects));
        granted = (
          refl,
          error_if_nil _ _ grants,
          unsupported-Within supported_grants _ (not-not _ (error_if_nil _ _ good_grants)),
        );
        responded = (
          refl,
          error_if_nil _ _ responses,
          unsupported-Within supported_responses _ (not-not _ (error_if_nil _ _ good_responses)),
        );
        scoped = (
          refl,
          error_if_nil _ _ scopes,
          unsupported-Within supported_scopes _ (not-not _ (error_if_nil _ _ good_scopes)),
        );
        code_grant = error_if_nil _ _ code;
        authenticated = (refl, not-not _ (error_if_nil _ _ method));
      }

  pub build_client_metadata_lem :
      (form : ClientForm) (m : ClientMetadata)
      → build_client_metadata host_ok form ≡ ok m
      → m ≡ built_metadata host_ok form
  unfolding build_client_metadata list_errors
  build_client_metadata_lem form m h =
      let (uri_bad, e, k) = >>=-ok (uri_errors host_ok (strip (or_empty form.client_uri))) _ h in
      let (redirect_bad, e', k') =
        >>=-ok (redirect_errors host_ok (parse_multiline_values form.redirect_uri)) _ k in
      let (_, raised_none, built) =
        >>=-ok (raise_unless_empty host_ok _) (λ _. ok (built_metadata host_ok form)) k' in
      ok_value refl built

-- ===== src/Dashboard/Edited.antt =====
-- The secret of a client, through an edit and in the form of a new one.
use satoidc.Common.{
  ℕ, ◌≡◌, ◌≢◌, refl, sym, subst, ap, Bool, true, false, not, Option, none, some, List, [], ◌∷◌,
  Outcome, ok, raised, >>=-ok, ok_value, ◌==◌, if◌then◌else◌, arith,
}
use satoidc.Common.Rows.{All, first_where}
use satoidc.Common.Rows.Every.{All-append}
use satoidc.Common.Texts.{Text, codes, text_eq}
use satoidc.Models.{Token, OAuth2Client}
use satoidc.Clients.{rotate_client_secret, is_public_method}
use satoidc.Clients.Metadata.{
  ClientForm, ClientError, validation_error, value_error, method_or_basic, built_metadata,
  build_client_metadata, update_client_metadata,
}
use satoidc.Clients.Checked.{build_client_metadata_lem}
use satoidc.Clients.Creation.{
  first_three, submit, new_client, is_public_form, shown_errors, shown_lem, owner_of,
}
use satoidc.Dashboard.Developer.{
  ClientAnswer, client_updated, has_number, commit_client, changed_to, rotated, saved,
}
use satoidc.Dashboard.Kept.{IsSecreted, rotated_kept, commit_kept, changed_lem}

-- What an accepted edit does to the copy before the secret is looked at.
update_lem :
    (host_ok : Text → Bool) (clock : ℕ) (client next : OAuth2Client) (form : ClientForm)
    → update_client_metadata host_ok clock client form none ≡ ok next
    → (next.id ≡ client.id) × (next.client_secret ≡ client.client_secret)
unfolding update_client_metadata
update_lem host_ok clock client next form h =
    let (built, e, k) = >>=-ok (build_client_metadata host_ok form) _ h in
    let same = ok_value refl k in (ap (λ c. c.id) same, ap (λ c. c.client_secret) same)

save_tests :
    (host_ok : Text → Bool) (clock : ℕ) (drawn : Token) (next row : OAuth2Client)
    (clients : List OAuth2Client) (a : ClientAnswer) (public absent : Bool)
    → drawn ≢ 0
    → first_where (has_number next.id) clients ≡ some row
    → row.client_secret ≡ next.client_secret
    → All IsSecreted clients
    → is_public_method 0 next.client_metadata.token_endpoint_auth_method ≡ public
    → (next.client_secret == 0) ≡ absent
    → (if public
        then commit_client client_updated
            (changed_to next.client_secret 0)
            record next { client_secret = 0 }
            clients
        else if not absent
        then commit_client client_updated none next clients
        else rotated host_ok clock drawn first_three
            (rotate_client_secret clock drawn next none)
            next
            clients)
      ≡ ok a
    → All IsSecreted a.clients
save_tests host_ok clock drawn next row clients a true absent fresh found same all p e h =
    commit_kept _ (changed_to next.client_secret 0) row record next { client_secret = 0 } clients a
      found (rw (changed_lem next.client_secret 0 next.client_metadata row same) p) all h
save_tests host_ok clock drawn next row clients a false false fresh found same all p e h =
    commit_kept _ none row next clients a found (rw (same, e) p) all h
save_tests host_ok clock drawn next row clients a false true fresh found same all p e h =
    rotated_kept first_three host_ok clock drawn next row clients a _ fresh found same all refl h

pub saved_kept :
    (host_ok : Text → Bool) (clock : ℕ) (drawn : Token) (form : ClientForm) (client : OAuth2Client)
    (clients : List OAuth2Client) (a : ClientAnswer) (o : Outcome ClientError OAuth2Client)
    → drawn ≢ 0
    → first_where (has_number client.id) clients ≡ some client
    → All IsSecreted clients
    → update_client_metadata host_ok clock client form none ≡ o
    → saved host_ok clock drawn o client clients ≡ ok a
    → All IsSecreted a.clients
saved_kept host_ok clock drawn form client clients a (raised (validation_error es)) fresh found all
      e h =
    subst (λ a. All IsSecreted a.clients) (sym (ok_value refl h)) all
saved_kept host_ok clock drawn form client clients a (raised value_error) fresh found all e h = cc
saved_kept host_ok clock drawn form client clients a (ok next) fresh found all e h =
    let (number, secret) = update_lem host_ok clock client next form e in
    save_tests host_ok clock drawn next client clients a _ _ fresh (rw number found) (sym secret)
      all refl refl h

form_method :
    (m : Option Text) (public : Bool)
    → elim m [ none ↦ false | some t ↦ text_eq t (codes "none") ] ≡ public
    → is_public_method 0 (some (method_or_basic m)) ≡ public
form_method none public h = h
form_method (some []) public h = h
form_method (some (x ∷ t)) public h = h

made_secret :
    (method : Option Text) (public : Bool) (drawn : Token)
    → drawn ≢ 0
    → is_public_method 0 method ≡ public
    → is_public_method 0 method ≡ ((if public then 0 else drawn) == 0)
made_secret method true drawn fresh h = h
made_secret method false drawn fresh h = ground (arith, fresh)

pub submit_kept :
    (host_ok : Text → Bool) (client_id drawn : Token) (clock : ℕ)
    (clients clients' : List OAuth2Client) (session_user_id : Option Text) (form : ClientForm)
    (c : OAuth2Client)
    → drawn ≢ 0
    → All IsSecreted clients
    → submit host_ok client_id drawn clock clients session_user_id form ≡ ok (c, clients')
    → All IsSecreted clients'
unfolding submit
submit_kept host_ok client_id drawn clock clients clients' session_user_id form c fresh all h =
    let (m, e, k) = >>=-ok (shown_errors (build_client_metadata host_ok form)) _ h in
    let (uid, owner, k') = >>=-ok (owner_of session_user_id) _ k in
    let made = new_client host_ok client_id drawn clock clients uid form m in
    let is_built : m ≡ built_metadata host_ok form =
      build_client_metadata_lem host_ok form m (shown_lem host_ok client_id drawn clock _ m e) in
    subst (All IsSecreted) (ap (λ p. p.1) (sym (ok_value refl k'))) (
      All-append IsSecreted clients (made ∷ []) all (
        made_secret made.client_metadata.token_endpoint_auth_method (is_public_form form) drawn
            fresh (rw is_built (form_method form.token_endpoint_auth_method _ refl)),
        tt,
      ))

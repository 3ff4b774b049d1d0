-- ===== src/Dashboard/Kept.antt =====
-- The secret of a client, through each change of its row.
use satoidc.Common.{
  ℕ, ◌≡◌, ◌≢◌, refl, sym, subst, Bool, false, not, Option, none, some, List, [], ◌∷◌, Outcome, ok,
  raised, ok_value, ◌==◌, Bool-cases, inl, inr, arith,
}
use satoidc.Common.Rows.{All, first_where, update_first, delete_first}
use satoidc.Common.Texts.{Text}
use satoidc.Models.{Token, ClientMetadata, OAuth2Client}
use satoidc.Clients.{
  is_client_disabled, set_client_disabled, rotate_client_secret, is_public_method,
}
use satoidc.Dashboard.Developer.{
  ClientAnswer, Shown, has_number, set_columns, commit_client, changed_to, rotated, toggle_client,
}

-- The secret is empty exactly if the method of authentication is `none`.
abbrev pub IsSecreted : OAuth2Client → Type 0
IsSecreted c =
    is_public_method 0 c.client_metadata.token_endpoint_auth_method ≡ (c.client_secret == 0)

pub update_found :
    (n : ℕ) (f : OAuth2Client → OAuth2Client) (clients : List OAuth2Client) (c : OAuth2Client)
    → first_where (has_number n) clients ≡ some c
    → IsSecreted (f c)
    → All IsSecreted clients
    → All IsSecreted (update_first (has_number n) f clients)
update_found n f [] c found good all = tt
update_found n f (x ∷ xs) c found good (here, later) = elim (Bool-cases (has_number n x)) [
  | inl is ↦
      let same : c ≡ x = ground arith in rw is (subst (λ y. IsSecreted (f y)) same good, later)
  | inr other ↦ rw other (here, update_found n f xs c (ground arith) good later)
]

pub delete_kept :
    (n : ℕ) (clients : List OAuth2Client)
    → All IsSecreted clients
    → All IsSecreted (delete_first (has_number n) clients)
delete_kept n [] all = tt
delete_kept n (x ∷ xs) (here, later) = elim (Bool-cases (has_number n x)) [
  | inl is ↦ rw is later
  | inr other ↦ rw other (here, delete_kept n xs later)
]

-- A commit of a copy whose row is the current one keeps the property where the changed row has it.
pub commit_kept :
    (shown : Shown) (secret : Option Token) (row copy : OAuth2Client) (clients : List OAuth2Client)
    (a : ClientAnswer)
    → first_where (has_number copy.id) clients ≡ some row
    → IsSecreted (set_columns secret copy.client_metadata row)
    → All IsSecreted clients
    → commit_client shown secret copy clients ≡ ok a
    → All IsSecreted a.clients
commit_kept shown secret row copy clients a found good all h =
    subst (λ a. All IsSecreted a.clients) (sym (ok_value refl (rw found at h)))
      (update_found copy.id (set_columns secret copy.client_metadata) clients row found good all)

set_client_disabled_lem :
    (clock : ℕ) (client : OAuth2Client) (disabled : Bool)
    → ((set_client_disabled clock client disabled none).id ≡ client.id)
      × (is_public_method 0
            (set_client_disabled clock client disabled
              none).client_metadata.token_endpoint_auth_method
          ≡ is_public_method 0 client.client_metadata.token_endpoint_auth_method)
unfolding set_client_disabled
set_client_disabled_lem clock client disabled = (refl, refl)

pub toggle_kept :
    (host_ok : Text → Bool) (clock : ℕ) (drawn : Token) (client : OAuth2Client)
    (clients : List OAuth2Client) (a : ClientAnswer)
    → first_where (has_number client.id) clients ≡ some client
    → All IsSecreted clients
    → IsSecreted client
    → toggle_client host_ok clock drawn client clients ≡ ok a
    → All IsSecreted a.clients
unfolding toggle_client
toggle_kept host_ok clock drawn client clients a found all good h =
    let next = set_client_disabled clock client (not (is_client_disabled client)) none in
    let (number, method) = set_client_disabled_lem clock client (not (is_client_disabled client)) in
    commit_kept _ none client next clients a (rw number found) (rw method good) all h

-- What a rotation does: it is refused for a public client.
rotate_client_secret_lem :
    (clock : ℕ) (drawn secret : Token) (client next : OAuth2Client)
    → rotate_client_secret clock drawn client none ≡ ok (secret, next)
    → (secret ≡ drawn)
      × (next.id ≡ client.id)
      × (next.client_metadata.token_endpoint_auth_method
          ≡ client.client_metadata.token_endpoint_auth_method)
      × (is_public_method 0 client.client_metadata.token_endpoint_auth_method ≡ false)
unfolding rotate_client_secret
rotate_client_secret_lem clock drawn secret client next h =
    elim (Bool-cases (is_public_method 0 client.client_metadata.token_endpoint_auth_method)) [
      | inl public ↦ absurd (ground arith)
      | inr private ↦ (ground arith, ground arith, ground arith, private)
    ]

pub changed_lem :
    (old new : Token) (m : ClientMetadata) (c : OAuth2Client)
    → c.client_secret ≡ old
    → (set_columns (changed_to old new) m c ≡ record c { client_secret = new; client_metadata = m })
changed_lem old new m c h = elim (Bool-cases (old == new)) [
  | inl same ↦ rw same (let e : old ≡ new = ground arith in cc)
  | inr other ↦ rw other refl
]

-- A rotation for a copy that has the secret of the row.
pub rotated_kept :
    (pick : List Text → List Text) (host_ok : Text → Bool) (clock : ℕ) (drawn : Token)
    (copy row : OAuth2Client) (clients : List OAuth2Client) (a : ClientAnswer)
    (o : Outcome (List Text) (Token × OAuth2Client))
    → drawn ≢ 0
    → first_where (has_number copy.id) clients ≡ some row
    → row.client_secret ≡ copy.client_secret
    → All IsSecreted clients
    → rotate_client_secret clock drawn copy none ≡ o
    → rotated host_ok clock drawn pick o copy clients ≡ ok a
    → All IsSecreted a.clients
rotated_kept pick host_ok clock drawn copy row clients a (raised es) fresh found same all e h =
    subst (λ a. All IsSecreted a.clients) (sym (ok_value refl h)) all
rotated_kept pick host_ok clock drawn copy row clients a (ok (secret, next)) fresh found same all e
      h =
    let (is_drawn, number, method, confidential) =
      rotate_client_secret_lem clock drawn secret copy next e in
    commit_kept _ (changed_to copy.client_secret secret) row next clients a (rw number found)
      (rw (changed_lem copy.client_secret secret next.client_metadata row same)
        (rw (method, confidential, is_drawn) (ground (arith, fresh))))
      all h

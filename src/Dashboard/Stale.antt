-- ===== src/Dashboard/Stale.antt =====
-- A page that was read before a client was made public.
use satoidc.Common.{ℕ, ◌≡◌, refl, Bool, false, not, none, some, List, [], ◌∷◌, ok, arith}
use satoidc.Common.Rows.{first_where, update_first}
use satoidc.Common.Texts.{Text}
use satoidc.Models.{OAuth2Client, Token}
use satoidc.Clients.{set_client_disabled, is_client_disabled, is_public_method}
use satoidc.Dashboard.Developer.{
  ClientAnswer, status_updated, has_number, set_columns, toggle_client,
}

first_where-update_first :
    (n : ℕ) (f : OAuth2Client → OAuth2Client) (clients : List OAuth2Client) (c : OAuth2Client)
    → ((c : OAuth2Client) → (f c).id ≡ c.id)
    → first_where (has_number n) clients ≡ some c
    → first_where (has_number n) (update_first (has_number n) f clients) ≡ some (f c)
first_where-update_first n f [] c keeps h = cc
first_where-update_first n f (x ∷ xs) c keeps h =
    ground (arith, keeps x, first_where-update_first n f xs c keeps)

-- Where the row of a client has lost its secret, the switch on a page whose copy is still confidential
-- answers, and leaves the row with the method of the copy, which is not `none`, and with no secret.
pub toggle_client-set_columns :
    (host_ok : Text → Bool) (clock : ℕ) (drawn : Token) (copy row : OAuth2Client)
    (clients : List OAuth2Client)
    → first_where (has_number copy.id) clients ≡ some row
    → row.client_secret ≡ 0
    → is_public_method 0 copy.client_metadata.token_endpoint_auth_method ≡ false
    → (a : ClientAnswer) × (toggle_client host_ok clock drawn copy clients ≡ ok a)
      × (row' : OAuth2Client) × (first_where (has_number copy.id) a.clients ≡ some row')
      × (row'.client_secret ≡ 0)
      × (is_public_method 0 row'.client_metadata.token_endpoint_auth_method ≡ false)
unfolding toggle_client set_client_disabled
toggle_client-set_columns host_ok clock drawn copy row clients found empty confidential =
    let next = set_client_disabled clock copy (not (is_client_disabled copy)) none in
    (
      record {
        shown = status_updated;
        copy = next;
        clients = update_first (has_number copy.id) (set_columns none next.client_metadata) clients;
      },
      (rw found refl),
      set_columns none next.client_metadata row,
      first_where-update_first copy.id (set_columns none next.client_metadata) clients row
          (λ c. refl) found,
      empty,
      confidential,
    )

-- ===== src/Clients/Changes.antt =====
-- What a change of a client keeps.
use satoidc.Common.{
  ℕ, ◌≡◌, ◌≢◌, refl, Bool, true, false, Option, none, some, ok, >>=-ok, ok_value, arith, ap, ◌∙◌,
}
use satoidc.Common.Texts.{Text}
use satoidc.Models.{OAuth2Client}
use satoidc.Clients.{is_truthy, is_client_disabled, set_client_disabled, timestamp}
use satoidc.Clients.Metadata.{ClientForm, if_truthy, build_client_metadata, update_client_metadata}

-- After the switch a client is disabled exactly as asked, if the time of the switch is not 0.
pub set_client_disabled-is_client_disabled :
    (clock : ℕ) (client : OAuth2Client) (disabled : Bool) (now : Option ℕ)
    → timestamp now clock ≢ 0
    → is_client_disabled (set_client_disabled clock client disabled now) ≡ disabled
unfolding is_client_disabled set_client_disabled
set_client_disabled-is_client_disabled clock client true now h = ground (arith, h)
set_client_disabled-is_client_disabled clock client false now h = refl

truthy_kept : (host_ok : Text → Bool) (o : Option ℕ) → is_truthy (if_truthy host_ok o) ≡ is_truthy o
truthy_kept host_ok none = refl
truthy_kept host_ok (some n) = ground arith

-- An accepted edit of a client's data keeps its identifier, its secret and its owner, and the client is
-- disabled after it exactly if it was before.
pub update_client_metadata_lem :
    (host_ok : Text → Bool) (clock : ℕ) (client client' : OAuth2Client) (form : ClientForm)
    (now : Option ℕ)
    → update_client_metadata host_ok clock client form now ≡ ok client'
    → (client'.client_id ≡ client.client_id)
      × (client'.client_secret ≡ client.client_secret)
      × (client'.user_id ≡ client.user_id)
      × (is_client_disabled client' ≡ is_client_disabled client)
unfolding update_client_metadata is_client_disabled
update_client_metadata_lem host_ok clock client client' form now h =
    let (built, e, k) = >>=-ok (build_client_metadata host_ok form) _ h in
    let same = ok_value refl k in
    (
      ap (λ c. c.client_id) same,
      ap (λ c. c.client_secret) same,
      ap (λ c. c.user_id) same,
      ap (λ c. is_truthy c.client_metadata.disabled_at) same
          ∙ truthy_kept host_ok client.client_metadata.disabled_at,
    )

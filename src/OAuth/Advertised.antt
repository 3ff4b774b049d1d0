-- ===== src/OAuth/Advertised.antt =====
-- What the server says of itself.
use satoidc.Common.{◌≡◌, refl, Bool, true, false, ◌||◌, List, [], ◌∷◌}
use satoidc.Common.Texts.{Text, codes, elem_text, text_eq}
use satoidc.Models.{ClientMetadata}
use satoidc.Settings.{Settings}
use satoidc.Clients.Metadata.{
  supported_grants, supported_responses, supported_scopes, supported_methods,
}
use satoidc.Clients.Fields.{split}
use satoidc.Clients.Checked.{Within, IsRegistrable}
use satoidc.OAuth.Discovery.{well_known}

Within-Within :
    (a b ts : List Text)
    → ((t : Text) → elem_text t a ≡ true → elem_text t b ≡ true)
    → Within a ts
    → Within b ts
Within-Within a b [] sub all = tt
Within-Within a b (t ∷ ts) sub (here, later) = (sub t here, Within-Within a b ts sub later)

-- The methods stand in another order.
methods_lem :
    (t : Text)
    → elem_text t supported_methods ≡ true
    → elem_text t (codes "none" ∷ codes "client_secret_post" ∷ codes "client_secret_basic" ∷ [])
      ≡ true
methods_lem t h =
    swapped (text_eq t (codes "none")) (text_eq t (codes "client_secret_basic"))
      (text_eq t (codes "client_secret_post")) h
  where
    swapped : (a b c : Bool) → (a || (b || (c || false))) ≡ true → (a || (c || (b || false))) ≡ true
    swapped true b c h = refl
    swapped false true true h = refl
    swapped false true false h = refl
    swapped false false true h = refl
    swapped false false false h = h

-- Whatever grants, responses, scopes and method an accepted client has, the discovery document lists them.
pub well_known-IsRegistrable :
    (env : Settings) (host_ok : Text → Bool) (m : ClientMetadata) (c : IsRegistrable host_ok m)
    → Within (well_known env).grant_types_supported c.grants
      × Within (well_known env).response_types_supported c.responses
      × Within (well_known env).scopes_supported (split c.scopes)
      × (elem_text c.method (well_known env).token_endpoint_auth_methods_supported ≡ true)
unfolding well_known
well_known-IsRegistrable env host_ok m c = (
  Within-Within supported_grants supported_grants c.grants (λ t h. h) c.granted.2,
  Within-Within supported_responses supported_responses c.responses (λ t h. h) c.responded.2,
  Within-Within supported_scopes supported_scopes (split c.scopes) (λ t h. h) c.scoped.2,
  methods_lem c.method c.authenticated.1,
)

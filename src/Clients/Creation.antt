-- ===== src/Clients/Creation.antt =====
-- The `submit` handler of the page of satoidc/satoidc/routes/create_client.py: how a client is made.
-- `client_id` and `drawn` are the tokens that `token_urlsafe` draws, and a client without a secret has the
-- empty one.
use satoidc.Common.{
  ℕ, suc, ◌≡◌, refl, sym, ap, subst, ◌∙◌, Bool, true, false, Option, none, some, List, [], ◌∷◌,
  ◌++◌, Outcome, ok, raised, ◌>>=◌, >>=-ok, ok_parts, if◌then◌else◌, leb,
}
use satoidc.Common.Texts.{Text, codes, text_eq}
use satoidc.Common.Uuids.{parse_uuid}
use satoidc.Models.{Uuid, Token, ClientMetadata, OAuth2Client}
use satoidc.Clients.{is_client_disabled, is_truthy}
use satoidc.Clients.Metadata.{
  ClientError, validation_error, value_error, ClientForm, build_client_metadata,
}
use satoidc.Clients.Checked.{
  IsRegistrable, build_client_metadata-IsRegistrable, build_client_metadata_lem,
}

-- `error.messages[:3]`, which the page shows
abbrev pub first_three : List Text → List Text
first_three (a ∷ b ∷ c ∷ rest) = a ∷ b ∷ c ∷ []
first_three messages = messages

abbrev pub shown_errors : Outcome ClientError ClientMetadata → Outcome ClientError ClientMetadata
shown_errors (ok m) = ok m
shown_errors (raised (validation_error messages)) = raised (validation_error (first_three messages))
shown_errors (raised value_error) = raised value_error

-- `UUID(user_id)`
abbrev pub owner_of : Option Text → Outcome ClientError Uuid
owner_of none = raised value_error
owner_of (some text) = elim (parse_uuid text) [ none ↦ raised value_error | some uid ↦ ok uid ]

abbrev pub is_public_form : ClientForm → Bool
is_public_form form = elim form.token_endpoint_auth_method [
  | none ↦ false
  | some m ↦ text_eq m (codes "none")
]

abbrev max_client_id : List OAuth2Client → ℕ
max_client_id [] = 0
max_client_id (c ∷ cs) = let m = max_client_id cs in if leb m c.id then c.id else m

module _ (host_ok : Text → Bool) (client_id drawn : Token) (clock : ℕ) where
  abbrev pub new_client : List OAuth2Client → Uuid → ClientForm → ClientMetadata → OAuth2Client
  new_client clients uid form m = record {
    id = suc (max_client_id clients);
    user_id = uid;
    client_id = client_id;
    client_secret = if is_public_form form then 0 else drawn;
    client_id_issued_at = clock;
    client_metadata = m;
  }

  unfoldable pub submit :
      List OAuth2Client
      → Option Text
      → ClientForm
      → Outcome ClientError (OAuth2Client × List OAuth2Client)
  submit clients session_user_id form = do
    m ← shown_errors (build_client_metadata host_ok form)
    uid ← owner_of session_user_id
    ok (new_client clients uid form m, clients ++ new_client clients uid form m ∷ [])

  -- What a client that has been made satisfies.
  pub record IsCreated (session_user_id : Option Text) (form : ClientForm) (c : OAuth2Client)
      : Type 0 where
    pub registrable : IsRegistrable host_ok c.client_metadata
    pub owned : owner_of session_user_id ≡ ok c.user_id
    pub named : c.client_id ≡ client_id
    pub public_secret : is_public_form form ≡ true → c.client_secret ≡ 0
    pub drawn_secret : is_public_form form ≡ false → c.client_secret ≡ drawn
    pub enabled_first : is_client_disabled c ≡ false

  pub shown_lem :
      (o : Outcome ClientError ClientMetadata) (m : ClientMetadata)
      → shown_errors o ≡ ok m
      → o ≡ ok m
  shown_lem (ok n) m h = h
  shown_lem (raised (validation_error messages)) m h = cc
  shown_lem (raised value_error) m h = cc

  built_enabled :
      (form : ClientForm) (m : ClientMetadata)
      → build_client_metadata host_ok form ≡ ok m
      → m.disabled_at ≡ none
  built_enabled form m h = ap (λ m. m.disabled_at) (build_client_metadata_lem host_ok form m h)

  secret_public : (b : Bool) → b ≡ true → (if b then 0 else drawn) ≡ 0
  secret_public true h = refl
  secret_public false h = cc

  secret_drawn : (b : Bool) → b ≡ false → (if b then 0 else drawn) ≡ drawn
  secret_drawn true h = cc
  secret_drawn false h = refl

  created :
      (clients : List OAuth2Client) (session_user_id : Option Text) (uid : Uuid) (form : ClientForm)
      (m : ClientMetadata)
      → build_client_metadata host_ok form ≡ ok m
      → owner_of session_user_id ≡ ok uid
      → IsCreated session_user_id form (new_client clients uid form m)
  unfolding is_client_disabled
  created clients session_user_id uid form m built owner = record {
    registrable = build_client_metadata-IsRegistrable host_ok form m built;
    owned = owner;
    named = refl;
    public_secret = secret_public (is_public_form form);
    drawn_secret = secret_drawn (is_public_form form);
    enabled_first = ap is_truthy (built_enabled form m built);
  }

  -- A submitted form that makes a client adds it behind the others, for the account of the session, with
  -- data that the checks accept, with a secret exactly if it is not public, and not disabled.
  pub submit-IsCreated :
      (clients clients' : List OAuth2Client) (session_user_id : Option Text) (form : ClientForm)
      (c : OAuth2Client)
      → submit clients session_user_id form ≡ ok (c, clients')
      → IsCreated session_user_id form c × (clients' ≡ clients ++ c ∷ [])
  unfolding submit is_client_disabled
  submit-IsCreated clients clients' session_user_id form c h =
      let (m, e, k) = >>=-ok (shown_errors (build_client_metadata host_ok form)) _ h in
      let (uid, e', k') = >>=-ok (owner_of session_user_id) _ k in
      let (same, list) = ok_parts refl k' in
      let built = shown_lem _ m e in
      (
        subst (IsCreated session_user_id form) (sym same)
            (created clients session_user_id uid form m built e'),
        list ∙ ap (λ d. clients ++ d ∷ []) (sym same),
      )

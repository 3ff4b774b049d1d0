-- ===== src/Consent/Allowed.antt =====
-- From the page that asks for consent to the server's answer.
use satoidc.Common.{
  ◌≡◌, ◌≢◌, refl, sym, ap, Bool, true, false, Option, none, some, ◌==◌, ==_refl, if◌then◌else◌,
  Bool-cases, inl, inr, List, Outcome, ok, raised, arith,
}
use satoidc.Common.Rows.{first_where}
use satoidc.Common.Texts.{Text}
use satoidc.Common.Uuids.{parse_uuid}
use satoidc.Models.{Uuid, Token, User}
use satoidc.Security.{Session}
use satoidc.Lnurl.{is_user}
use satoidc.Authorize.{
  Decision, answered, invalid_csrf, unprocessable, type_error, csrf_ok, session_user, forget_csrf,
  for_user, for_uuid, after_csrf, logged_in, create_authorization_response, authorize,
}
use satoidc.Consent.{
  ConsentReply, asked, notified, ConsentPage, authorize_get, consent_page, set_csrf,
}

shown_token : {E : Type 0} → ConsentReply E → Token
shown_token (asked page) = page.csrf_token
shown_token (notified error) = 0

not_zero : (csrf : Token) → csrf ≢ 0 → (csrf == 0) ≡ false
not_zero csrf nonzero = ground (arith, nonzero)

module _ (is_ascii : Token → Bool) (csrf : Token) (nonzero : csrf ≢ 0)
    (ascii : is_ascii csrf ≡ true) where
  csrf_refl : csrf_ok is_ascii (some csrf) csrf ≡ some true
  csrf_refl = rw (not_zero csrf nonzero, ascii, ==_refl csrf) refl

  csrf_other :
      (other : Token)
      → other ≢ csrf
      → (other == 0) ≡ false
      → csrf_ok is_ascii (some csrf) other ≡ (if is_ascii other then some false else none)
  csrf_other other differs filled =
      rw (not_zero csrf nonzero, filled, ascii, not_equal other differs) refl
    where
      not_equal : (other : Token) → other ≢ csrf → (csrf == other) ≡ false
      not_equal other differs = ground (arith, differs)

-- Where a signed-in browser has been shown the page that asks for consent, a post of either decision with
-- the page's token, which is not empty and in ASCII, gets the answer of the OAuth server for the browser's account.
-- The same post again is refused; so is a post with any other token: an empty one is not accepted as a field, one
-- outside ASCII makes the comparison raise, and any other is answered as invalid.
pub authorize-authorize_get :
    {E G H R : Type 0} (is_ascii : Token → Bool) (consent : Outcome E G) (client_name : G → Text)
    (csrf : Token) (validate : User → Outcome R H) (respond : Option (User × H) → Outcome R R)
    (query_text : Text) (query : List (Text × Text)) (session session' : Session)
    (page : ConsentPage) (users : List User) (text : Text) (id : Uuid) (u : User)
    (decision : Decision)
    → csrf ≢ 0
    → is_ascii csrf ≡ true
    → authorize_get consent client_name csrf query_text query session ≡ (asked page, session')
    → session_user session.user_id ≡ some text
    → parse_uuid text ≡ some id
    → first_where (is_user id) users ≡ some u
    → (authorize is_ascii validate respond users session' decision page.csrf_token ≡ (
      answered (create_authorization_response validate respond u decision),
      forget_csrf session',
    ))
      × (authorize is_ascii validate respond users (forget_csrf session') decision page.csrf_token
          ≡ (invalid_csrf, forget_csrf session'))
      × ((other : Token)
          → other ≢ page.csrf_token
          → authorize is_ascii validate respond users session' decision other ≡ (
            (if other == 0
                then unprocessable
                else if is_ascii other
                then invalid_csrf
                else type_error),
            session',
          ))
unfolding shown_token consent_page authorize_get authorize logged_in after_csrf for_uuid for_user
authorize-authorize_get {E = E} {G = G} is_ascii consent client_name csrf validate respond
      query_text query session session' page users text id u decision nonzero ascii h has is_id
      found =
    let (same, token) = tests consent h in
    rw (same, token)
      (
        (rw (not_zero csrf nonzero, has, csrf_refl is_ascii csrf nonzero ascii, is_id, found) refl),
        (rw (not_zero csrf nonzero, has) refl),
        (λ other differs. elim (Bool-cases (other == 0)) [
          | inl empty ↦ rw empty refl
          | inr filled ↦
              rw (filled, has, csrf_other is_ascii csrf nonzero ascii other differs)
                (elim (Bool-cases (is_ascii other)) [
                  | inl plain ↦ rw plain refl
                  | inr foreign ↦ rw foreign refl
                ])
        ]),
      )
  where
    tests :
        (o : Outcome E G)
        → authorize_get o client_name csrf query_text query session ≡ (asked page, session')
        → (session' ≡ set_csrf csrf session) × (page.csrf_token ≡ csrf)
    tests (raised error) k = absurd (cc (ap (λ p. p.0) k))
    tests (ok grant) k = (sym (ap (λ p. p.1) k), sym (ap (λ p. shown_token p.0) k))

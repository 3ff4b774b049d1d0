-- ===== src/Authorize/Posted.antt =====
-- When a posted decision reaches the OAuth server.
use satoidc.Common.{
  ◌≡◌, refl, Bool, true, false, Option, none, some, List, Outcome, ap, sym, ◌==◌, if◌then◌else◌,
}
use satoidc.Common.Texts.{Text}
use satoidc.Common.Rows.{first_where}
use satoidc.Common.Uuids.{parse_uuid}
use satoidc.Models.{Uuid, Token, User}
use satoidc.Security.{Session}
use satoidc.Lnurl.{is_user}
use satoidc.Authorize.{
  Decision, AuthorizeReply, answered, login_required, invalid_csrf, invalid_session, unprocessable,
  type_error, csrf_ok, session_user, forget_csrf, for_user, for_uuid, after_csrf, logged_in,
  create_authorization_response, authorize,
}

module _ {G R : Type 0} (is_ascii : Token → Bool) (consent : User → Outcome R G)
    (respond : Option (User × G) → Outcome R R) where
  IsRefusal : AuthorizeReply R → Type 0
  IsRefusal login_required = Unit
  IsRefusal invalid_csrf = Unit
  IsRefusal invalid_session = Unit
  IsRefusal unprocessable = Unit
  IsRefusal type_error = Unit
  IsRefusal (answered r) = ⊥

  no_answer : (reply : AuthorizeReply R) (r : R) → IsRefusal reply → reply ≡ answered r → ⊥
  unfolding IsRefusal
  no_answer login_required r t h = cc
  no_answer invalid_csrf r t h = cc
  no_answer invalid_session r t h = cc
  no_answer unprocessable r t h = cc
  no_answer type_error r t h = cc
  no_answer (answered _) r t h = t

  user_answered :
      (decision : Decision) (o : Option User) (r : R)
      → for_user consent respond decision o ≡ answered r
      → (u : User) × (o ≡ some u) × (r ≡ create_authorization_response consent respond u decision)
  unfolding for_user
  user_answered decision none r h = cc
  user_answered decision (some u) r h = (u, refl, cc)

  uuid_answered :
      (users : List User) (decision : Decision) (o : Option Uuid) (r : R)
      → for_uuid consent respond users decision o ≡ answered r
      → (id : Uuid) × (u : User) × (o ≡ some id)
        × (first_where (is_user id) users ≡ some u)
        × (r ≡ create_authorization_response consent respond u decision)
  unfolding for_uuid
  uuid_answered users decision none r h = cc
  uuid_answered users decision (some id) r h =
      let (u, found, e) = user_answered decision _ r h in (id, u, refl, found, e)

  -- What has been checked before the OAuth server is asked.
  pub record Asked (users : List User) (session : Session) (decision : Decision)
      (csrf_token : Token) (r : R) : Type 0 where
    pub text : Text
    pub id : Uuid
    pub user : User
    pub in_session : session_user session.user_id ≡ some text
    pub is_uuid : parse_uuid text ≡ some id
    pub found : first_where (is_user id) users ≡ some user
    pub expected : csrf_ok is_ascii session.csrf_token csrf_token ≡ some true
    pub response : r ≡ create_authorization_response consent respond user decision

  decided :
      (users : List User) (session session' : Session) (decision : Decision) (csrf_token : Token)
      (text : Text) (r : R) (b : Option Bool)
      → session_user session.user_id ≡ some text
      → csrf_ok is_ascii session.csrf_token csrf_token ≡ b
      → after_csrf consent respond users session decision text b ≡ (answered r, session')
      → Asked users session decision csrf_token r × (session' ≡ forget_csrf session)
  unfolding after_csrf
  decided users session session' decision csrf_token text r none e c h =
      absurd (no_answer type_error r (unfold IsRefusal in tt) (ap (λ p. p.0) h))
  decided users session session' decision csrf_token text r (some false) e c h =
      absurd (no_answer invalid_csrf r (unfold IsRefusal in tt) (ap (λ p. p.0) h))
  decided users session session' decision csrf_token text r (some true) e c h =
      let (id, u, is_uuid, found, response) = uuid_answered users decision _ r (ap (λ p. p.0) h) in
      (
        record {
          text = text;
          id = id;
          user = u;
          in_session = e;
          is_uuid = is_uuid;
          found = found;
          expected = c;
          response = response;
        },
        sym (ap (λ p. p.1) h),
      )

  logged_in_lem :
      (users : List User) (session session' : Session) (decision : Decision) (csrf_token : Token)
      (o : Option Text) (r : R)
      → session_user session.user_id ≡ o
      → logged_in is_ascii consent respond users session decision csrf_token o
        ≡ (answered r, session')
      → Asked users session decision csrf_token r × (session' ≡ forget_csrf session)
  unfolding logged_in
  logged_in_lem users session session' decision csrf_token none r e h =
      absurd (no_answer login_required r (unfold IsRefusal in tt) (ap (λ p. p.0) h))
  logged_in_lem users session session' decision csrf_token (some text) r e h =
      decided users session session' decision csrf_token text r _ e refl h

  posted :
      (users : List User) (session session' : Session) (decision : Decision) (csrf_token : Token)
      (b : Bool) (r : R)
      → (csrf_token == 0) ≡ b
      → (if b
          then (unprocessable, session)
          else logged_in is_ascii consent respond users session decision csrf_token
              (session_user session.user_id))
        ≡ (answered r, session')
      → Asked users session decision csrf_token r
        × (session' ≡ forget_csrf session)
        × ((csrf_token == 0) ≡ false)
  posted users session session' decision csrf_token true r e h =
      absurd (no_answer unprocessable r (unfold IsRefusal in tt) (ap (λ p. p.0) h))
  posted users session session' decision csrf_token false r e h =
      let (asked, after) = logged_in_lem users session session' decision csrf_token _ r refl h in
      (asked, after, e)

  -- A posted decision that the OAuth server answers came with the session's token against request
  -- forgery, from a session of an existing account; the token is spent, so that the same post again is
  -- refused, and the answer is the server's for this account and this decision.
  pub authorize-Asked :
      (users : List User) (session session' : Session) (decision : Decision) (csrf_token : Token)
      (r : R)
      → authorize is_ascii consent respond users session decision csrf_token
        ≡ (answered r, session')
      → Asked users session decision csrf_token r
        × ((users' : List User) (decision' : Decision)
            → authorize is_ascii consent respond users' session' decision' csrf_token
              ≡ (invalid_csrf, session'))
  unfolding authorize logged_in after_csrf
  authorize-Asked users session session' decision csrf_token r h =
      let (asked, after, given) = posted users session session' decision csrf_token _ r refl h in
      (asked, λ users' decision'. rw (given, after, asked.in_session) refl)

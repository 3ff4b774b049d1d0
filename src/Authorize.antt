-- ===== src/Authorize.antt =====
-- `authorize` of satoidc/satoidc/routes/oauth2.py with `_create_authorization_response_sync`. Authlib's
-- server is a parameter: `consent` validates the request for the user, `respond` makes the response for the
-- user who grants it, or for nobody. An error that it raises is the answer. `is_ascii` says which tokens are
-- texts in ASCII, which is all that `hmac.compare_digest` takes.
pub mod Posted
use satoidc.Common.{
  ℕ, Bool, true, false, not, ◌&&◌, ◌||◌, Option, none, some, List, Outcome, ok, raised, ◌>>=◌, ◌==◌,
  if◌then◌else◌,
}
use satoidc.Common.Texts.{Text, is_empty}
use satoidc.Common.Rows.{first_where}
use satoidc.Common.Uuids.{parse_uuid}
use satoidc.Models.{Uuid, Token, User}
use satoidc.Security.{Session}
use satoidc.Lnurl.{is_user}

pub data Decision : Type 0 where
  approve deny : Decision

pub data AuthorizeReply (R : Type 0) : Type 0 where
  login_required invalid_csrf invalid_session : AuthorizeReply R
  -- FastAPI's answer 422 to a required field of the form that is empty, and the `TypeError` of `compare_digest`
  unprocessable type_error : AuthorizeReply R
  answered : R → AuthorizeReply R

-- `not expected or not given or not compare_digest(expected, given)` is false; `none` where `compare_digest`
-- raises.
abbrev pub csrf_ok : (Token → Bool) → Option Token → Token → Option Bool
csrf_ok is_ascii none given = some false
csrf_ok is_ascii (some expected) given =
    if expected == 0 || given == 0
    then some false
    else if is_ascii expected && is_ascii given
    then some (expected == given)
    else none

abbrev pub session_user : Option Text → Option Text
session_user none = none
session_user (some t) = if is_empty t then none else some t

abbrev pub forget_csrf : Session → Session
forget_csrf session = record session { csrf_token = none }

module _ {G R : Type 0} (consent : User → Outcome R G)
    (respond : Option (User × G) → Outcome R R) where
  -- An error's body is a response as well.
  abbrev pub body : Outcome R R → R
  body (ok r) = r
  body (raised r) = r

  unfoldable pub create_authorization_response : User → Decision → R
  create_authorization_response user decision = body do
    grant ← consent user
    elim decision [ deny ↦ respond none | approve ↦ respond (some (user, grant)) ]

  unfoldable pub for_user : Decision → Option User → AuthorizeReply R
  unfolding create_authorization_response
  for_user decision none = invalid_session
  for_user decision (some user) = answered (create_authorization_response user decision)

  unfoldable pub for_uuid : List User → Decision → Option Uuid → AuthorizeReply R
  unfolding for_user
  for_uuid users decision none = invalid_session
  for_uuid users decision (some uid) = for_user decision (first_where (is_user uid) users)

  unfoldable pub after_csrf :
      List User → Session → Decision → Text → Option Bool → AuthorizeReply R × Session
  unfolding for_uuid
  after_csrf users session decision user_id none = (type_error, session)
  after_csrf users session decision user_id (some false) = (invalid_csrf, session)
  after_csrf users session decision user_id (some true) =
      (for_uuid users decision (parse_uuid user_id), forget_csrf session)

module _ {G R : Type 0} (is_ascii : Token → Bool) (consent : User → Outcome R G)
    (respond : Option (User × G) → Outcome R R) where
  unfoldable pub logged_in :
      List User → Session → Decision → Token → Option Text → AuthorizeReply R × Session
  unfolding after_csrf
  logged_in users session decision csrf_token none = (login_required, session)
  logged_in users session decision csrf_token (some user_id) =
      after_csrf consent respond users session decision user_id
        (csrf_ok is_ascii session.csrf_token csrf_token)

  unfoldable pub authorize : List User → Session → Decision → Token → AuthorizeReply R × Session
  unfolding logged_in
  authorize users session decision csrf_token =
      if csrf_token == 0
      then (unprocessable, session)
      else logged_in users session decision csrf_token (session_user session.user_id)

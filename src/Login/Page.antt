-- ===== src/Login/Page.antt =====
-- `login_page` of satoidc/satoidc/routes/login.py and `register_page` of satoidc/satoidc/routes/register.py: the
-- nonce, what the form carries, what is said of an error, and where the browser is sent after the wallet's event.
use satoidc.Common.{
  false, not, Option, none, some, [], ◌∷◌, ◌++◌, Outcome, ok, ◌>>=◌, ◌==◌, if◌then◌else◌, Bool,
}
use satoidc.Common.Texts.{Text, codes, is_empty, text_eq}
use satoidc.Models.{Token}
use satoidc.Security.{Session}
use satoidc.Redirect.{safe_redirect}
use satoidc.Login.{LoginError, or_raise, encode_query_value, hidden_value}

-- `html.escape(value, quote=True)`
unfoldable pub escape : Text → Text
escape [] = []
escape (c ∷ s) =
    let rest = escape s in
    if c == b'&'
    then codes "&amp;" ++ rest
    else if c == b'<'
    then codes "&lt;" ++ rest
    else if c == b'>'
    then codes "&gt;" ++ rest
    else if c == b'"'
    then codes "&quot;" ++ rest
    else if c == b'\''
    then codes "&#x27;" ++ rest
    else c ∷ rest

-- A redirect for a session that is logged in, or the page.
pub data FormPage : Type 0 where
  sent_to : Text → FormPage
  form_shown : (redirect_to hidden : Text) (nonce : Token) (message : Option Text) → FormPage

abbrev pub is_logged_in : Session → Bool
is_logged_in session = elim session.user_id [ none ↦ false | some t ↦ not (is_empty t) ]

-- `match err`
abbrev pub login_message : Option Text → Option Text
login_message none = none
login_message (some err) =
    if text_eq err (codes "invalid")
    then some (codes "Invalid credentials.")
    else if text_eq err (codes "bad_flow")
    then some (codes "Invalid login flow. Please try again.")
    else some (codes "Unknown error.")

abbrev pub register_message : Option Text → Option Text
register_message none = none
register_message (some err) =
    if text_eq err (codes "invalid")
    then some (codes "Invalid registration data.")
    else if text_eq err (codes "password_mismatch")
    then some (codes "Passwords do not match.")
    else if text_eq err (codes "duplicate")
    then some (codes "Login or email already exists.")
    else if text_eq err (codes "terms")
    then some (codes "Terms acceptance is required.")
    else some (codes "Unable to create account.")

abbrev pub wallet_redirect : Text
wallet_redirect = codes "/auth/lnurl/redirect?redirect_to="

-- Where the event handlers of the two pages send the browser.
unfoldable pub login_target : Text → Text
unfolding encode_query_value
login_target redirect_to = wallet_redirect ++ encode_query_value redirect_to

unfoldable pub register_target : Text → Text
register_target redirect_to = wallet_redirect ++ redirect_to

abbrev pub remember_nonce : Token → Session → Session
remember_nonce nonce session = record session { login_nonce = some nonce }

module _ (host_ok : Text → Bool) (nonce : Token) where
  -- The hidden fields of the form; the session remembers the nonce.
  unfoldable pub login_page :
      Session → Option Text → Option Text → Outcome LoginError (FormPage × Session)
  unfolding hidden_value
  login_page session redirect_to err = do
    target ← or_raise (safe_redirect host_ok redirect_to)
    if is_logged_in session
        then ok (sent_to target, session)
        else ok (
          form_shown target (hidden_value target) nonce (login_message err),
          remember_nonce nonce session,
        )

  unfoldable pub register_page :
      Session → Option Text → Option Text → Outcome LoginError (FormPage × Session)
  unfolding escape
  register_page session redirect_to err = do
    target ← or_raise (safe_redirect host_ok redirect_to)
    if is_logged_in session
        then ok (sent_to target, session)
        else ok (
          form_shown target (escape target) nonce (register_message err),
          remember_nonce nonce session,
        )

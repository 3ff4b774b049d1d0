-- ===== src/Middleware.antt =====
-- satoidc/satoidc/auth/middleware.py: which requests need a login.
pub mod Boundary
use satoidc.Common.{Bool, true, false, ◌||◌, Option, none, some, List, [], ◌∷◌, ◌++◌, if◌then◌else◌}
use satoidc.Common.Texts.{Text, codes, is_empty, starts_with, elem_text}
use satoidc.Common.Quoting.{quote}
use satoidc.Security.{Session}

abbrev pub public_prefixes : List Text
public_prefixes =
    codes "/_nicegui"
    ∷ codes "/oauth"
    ∷ codes "/api"
    ∷ codes "/auth/lnurl"
    ∷ codes "/.well-known"
    ∷ []

abbrev pub public_exact : List Text
public_exact =
    codes "/register"
    ∷ codes "/login"
    ∷ codes "/logout"
    ∷ codes "/health"
    ∷ codes "/forbidden"
    ∷ codes "/"
    ∷ []

-- `path.startswith(prefixes)`
abbrev pub starts_with_any : List Text → Text → Bool
starts_with_any [] path = false
starts_with_any (p ∷ ps) path = starts_with p path || starts_with_any ps path

-- The request goes on, or the browser is sent to a URL with status 303.
pub data Dispatch : Type 0 where
  call_next : Dispatch
  redirect : Text → Dispatch

-- `not user_id`
abbrev pub is_logged_out : Option Text → Bool
is_logged_out none = true
is_logged_out (some text) = is_empty text

abbrev pub full_path : Text → Text → Text
full_path path query = if is_empty query then path else path ++ b'?' ∷ query

abbrev pub login_prefix : Text
login_prefix = codes "/login?redirect_to="

unfoldable pub dispatch : Text → Text → Session → Dispatch
unfolding quote
dispatch path query session =
    if elem_text path public_exact
    then call_next
    else if starts_with_any public_prefixes path
    then call_next
    else if is_logged_out session.user_id
    then redirect (login_prefix ++ quote (full_path path query))
    else call_next

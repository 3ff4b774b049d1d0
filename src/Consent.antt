-- ===== src/Consent.antt =====
-- `authorize_get` of satoidc/satoidc/routes/authorize.py, the page that asks for consent. `consent` is Authlib's
-- check of the request, `client_name` the name of the client that it finds.
pub mod Allowed
use satoidc.Common.{
  Bool, true, false, Option, none, some, List, [], ◌∷◌, ◌++◌, Outcome, ok, raised, if◌then◌else◌,
}
use satoidc.Common.Texts.{Text, codes, is_empty, elem_text}
use satoidc.Models.{Token}
use satoidc.Security.{Session}
use satoidc.Clients.Fields.{split}
use satoidc.FastApi.Dict.{Dict, get, update}

-- A title and what is said of the scope.
abbrev pub ScopeRow : Type 0
ScopeRow = Text × Text

abbrev pub row_if : Bool → ScopeRow → List ScopeRow
row_if true row = row ∷ []
row_if false row = []

abbrev pub openid_row : ScopeRow
openid_row = (codes "Identity", codes "Allows authentication and access to your unique identifier.")

abbrev pub profile_row : ScopeRow
profile_row = (
  codes "View your profile",
  codes "Allows access to basic user profile information, such as name and nickname.",
)

abbrev pub email_row : ScopeRow
email_row = (codes "Access your email", codes "Allows access to the user's email address.")

unfoldable pub scope_rows : List Text → List ScopeRow
scope_rows scopes =
    row_if (elem_text (codes "openid") scopes) openid_row
    ++ row_if (elem_text (codes "profile") scopes) profile_row
    ++ row_if (elem_text (codes "email") scopes) email_row

-- The page's form: where it is posted to, the token against request forgery, and the hidden fields.
pub record ConsentPage : Type 0 where
  pub title : Text
  pub rows : List ScopeRow
  pub action : Text
  pub csrf_token : Token
  pub hidden : List (Text × Text)

pub data ConsentReply (E : Type 0) : Type 0 where
  asked : ConsentPage → ConsentReply E
  notified : E → ConsentReply E

-- `request.query_params.get(k, "")`, the last value of the key
abbrev pub param_or_empty : Text → List (Text × Text) → Text
param_or_empty k query = elim (get k (update query [])) [ none ↦ [] | some v ↦ v ]

abbrev pub action_of : Text → Text
action_of query_text =
    codes "/oauth/authorize" ++ (if is_empty query_text then [] else b'?' ∷ query_text)

abbrev pub set_csrf : Token → Session → Session
set_csrf csrf session = record session { csrf_token = some csrf }

module _ {E G : Type 0} (consent : Outcome E G) (client_name : G → Text) (csrf : Token) where
  -- The query as it stands in the address, and its parts.
  abbrev pub consent_page : Text → List (Text × Text) → G → ConsentPage
  unfolding scope_rows split
  consent_page query_text query grant = record {
    title = client_name grant ++ codes " wants to access your account";
    rows = scope_rows (split (param_or_empty (codes "scope") query));
    action = action_of query_text;
    csrf_token = csrf;
    hidden = update query [];
  }

  unfoldable pub authorize_get : Text → List (Text × Text) → Session → ConsentReply E × Session
  authorize_get query_text query session = elim consent [
    | raised error ↦ (notified error, session)
    | ok grant ↦ (asked (consent_page query_text query grant), set_csrf csrf session)
  ]

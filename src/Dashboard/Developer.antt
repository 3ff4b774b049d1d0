-- ===== src/Dashboard/Developer.antt =====
-- The handlers and the table of the page `/dashboard/developer`. A handler changes the page's copy of a
-- client and writes the columns it has changed to the row of that number; a commit for a row that is gone
-- raises, while a second deletion does nothing. A secret is empty where it is 0.
use satoidc.Common.{
  [], ◌∷◌, ℕ, Bool, not, Option, none, some, List, Outcome, ok, raised, ◌==◌, if◌then◌else◌,
  is_some,
}
use satoidc.Common.Rows.{first_where, update_first, delete_first}
use satoidc.Common.Texts.{Text}
use satoidc.Models.{Token, ClientMetadata, OAuth2Client}
use satoidc.Clients.{
  is_client_disabled, set_client_disabled, rotate_client_secret, is_public_method,
}
use satoidc.Clients.Metadata.{
  ClientError, validation_error, value_error, ClientForm, update_client_metadata,
}
use satoidc.Clients.Creation.{first_three}

pub data DashboardError : Type 0 where
  stale_client bad_url : DashboardError

-- What the page then shows: messages, a notice, or the secret of the dialog.
pub data Shown : Type 0 where
  messages : List Text → Shown
  client_updated status_updated client_deleted : Shown
  client_secret_shown : Token → Shown

pub record ClientAnswer : Type 0 where
  pub shown : Shown
  pub copy : OAuth2Client
  pub clients : List OAuth2Client

abbrev pub has_number : ℕ → OAuth2Client → Bool
has_number n c = c.id == n

-- The column of the secret where it has been changed, and that of the data.
abbrev pub set_columns : Option Token → ClientMetadata → OAuth2Client → OAuth2Client
set_columns none m c = record c { client_metadata = m }
set_columns (some secret) m c = record c { client_secret = secret; client_metadata = m }

-- `session.add(client)` and `session.commit()` for the copy as changed
abbrev pub commit_client :
    Shown → Option Token → OAuth2Client → List OAuth2Client → Outcome DashboardError ClientAnswer
commit_client shown secret copy clients =
    if is_some (first_where (has_number copy.id) clients)
    then ok record {
      shown = shown;
      copy = copy;
      clients = update_first (has_number copy.id) (set_columns secret copy.client_metadata) clients;
    }
    else raised stale_client

abbrev pub answer : Shown → OAuth2Client → List OAuth2Client → Outcome DashboardError ClientAnswer
answer shown copy clients = ok record { shown = shown; copy = copy; clients = clients }

-- The secret's column where the copy had another one.
abbrev pub changed_to : Token → Token → Option Token
changed_to old new = if old == new then none else some new

-- `error.messages[0]`
abbrev pub first_message : List Text → List Text
first_message [] = []
first_message (e ∷ es) = e ∷ []

module _ (host_ok : Text → Bool) (clock : ℕ) (drawn : Token) where
  -- The rotation, and what comes after it: `pick` chooses the messages that are shown.
  abbrev pub rotated :
      (List Text → List Text)
      → Outcome (List Text) (Token × OAuth2Client)
      → OAuth2Client
      → List OAuth2Client
      → Outcome DashboardError ClientAnswer
  rotated pick (raised es) copy clients = answer (messages (pick es)) copy clients
  rotated pick (ok (secret, next)) copy clients =
      commit_client (client_secret_shown secret) (changed_to copy.client_secret secret) next clients

  -- A client without a secret that is not public gets one.
  abbrev pub save_secret : OAuth2Client → List OAuth2Client → Outcome DashboardError ClientAnswer
  save_secret next clients =
      if is_public_method clock next.client_metadata.token_endpoint_auth_method
      then commit_client client_updated (changed_to next.client_secret 0)
          record next { client_secret = 0 } clients
      else if not (next.client_secret == 0)
      then commit_client client_updated none next clients
      else rotated first_three (rotate_client_secret clock drawn next none) next clients

  abbrev pub saved :
      Outcome ClientError OAuth2Client
      → OAuth2Client
      → List OAuth2Client
      → Outcome DashboardError ClientAnswer
  saved (raised (validation_error es)) copy clients =
      answer (messages (first_three es)) copy clients
  saved (raised value_error) copy clients = raised bad_url
  saved (ok next) copy clients = save_secret next clients

  unfoldable pub save :
      ClientForm → OAuth2Client → List OAuth2Client → Outcome DashboardError ClientAnswer
  save form client clients =
      saved (update_client_metadata host_ok clock client form none) client clients

  unfoldable pub rotate : OAuth2Client → List OAuth2Client → Outcome DashboardError ClientAnswer
  rotate client clients =
      rotated first_message (rotate_client_secret clock drawn client none) client clients

  unfoldable pub toggle_client :
      OAuth2Client → List OAuth2Client → Outcome DashboardError ClientAnswer
  toggle_client client clients =
      commit_client status_updated none
        (set_client_disabled clock client (not (is_client_disabled client)) none) clients

unfoldable pub delete_client : OAuth2Client → List OAuth2Client → ClientAnswer
delete_client client clients = record {
  shown = client_deleted;
  copy = client;
  clients = delete_first (has_number client.id) clients;
}

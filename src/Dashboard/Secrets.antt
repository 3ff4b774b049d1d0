-- ===== src/Dashboard/Secrets.antt =====
-- Which clients have a secret, through the changes that the program makes to clients.
use satoidc.Common.{ℕ, ◌≡◌, ◌≢◌, refl, Bool, Option, some, List, ok}
use satoidc.Common.Rows.{All, first_where}
use satoidc.Common.Rows.Every.{All-first_where}
use satoidc.Common.Texts.{Text}
use satoidc.Models.{Token, OAuth2Client}
use satoidc.Clients.Metadata.{ClientForm}
use satoidc.Clients.Creation.{submit}
use satoidc.Dashboard.Developer.{
  first_message, ClientAnswer, has_number, save, rotate, toggle_client, delete_client,
}
use satoidc.Dashboard.Edited.{saved_kept, submit_kept}
use satoidc.Dashboard.Kept.{IsSecreted, delete_kept, toggle_kept, rotated_kept}

-- The changes of the clients by the form of a new client and by the handlers of the page, each on a copy
-- that is the row as it is. A secret that has been drawn is not empty.
module _ (host_ok : Text → Bool) where
  pub data ClientStep (clients : List OAuth2Client) : List OAuth2Client → Type 0 where
    submitted :
        (client_id drawn : Token) (clock : ℕ) (session_user_id : Option Text) (form : ClientForm)
        (c : OAuth2Client) (clients' : List OAuth2Client)
        → drawn ≢ 0
        → submit host_ok client_id drawn clock clients session_user_id form ≡ ok (c, clients')
        → ClientStep clients clients'
    edited :
        (clock : ℕ) (drawn : Token) (form : ClientForm) (client : OAuth2Client) (a : ClientAnswer)
        → drawn ≢ 0
        → first_where (has_number client.id) clients ≡ some client
        → save host_ok clock drawn form client clients ≡ ok a
        → ClientStep clients a.clients
    rotated_secret :
        (clock : ℕ) (drawn : Token) (client : OAuth2Client) (a : ClientAnswer)
        → drawn ≢ 0
        → first_where (has_number client.id) clients ≡ some client
        → rotate host_ok clock drawn client clients ≡ ok a
        → ClientStep clients a.clients
    toggled :
        (clock : ℕ) (drawn : Token) (client : OAuth2Client) (a : ClientAnswer)
        → first_where (has_number client.id) clients ≡ some client
        → toggle_client host_ok clock drawn client clients ≡ ok a
        → ClientStep clients a.clients
    deleted : (client : OAuth2Client) → ClientStep clients (delete_client client clients).clients

  pub data ClientReach (clients : List OAuth2Client) : List OAuth2Client → Type 0 where
    start : ClientReach clients clients
    then_step :
        {cs ds : List OAuth2Client}
        → ClientReach clients cs
        → ClientStep cs ds
        → ClientReach clients ds

step_kept :
    (host_ok : Text → Bool) (clients clients' : List OAuth2Client)
    → All IsSecreted clients
    → ClientStep host_ok clients clients'
    → All IsSecreted clients'
step_kept host_ok clients _ all
      (submitted client_id drawn clock session_user_id form c clients' fresh h) =
    submit_kept host_ok client_id drawn clock clients clients' session_user_id form c fresh all h
step_kept host_ok clients _ all (edited clock drawn form client a fresh found h) =
    saved_kept host_ok clock drawn form client clients a _ fresh found all refl (unfold save in h)
step_kept host_ok clients _ all (rotated_secret clock drawn client a fresh found h) =
    rotated_kept first_message host_ok clock drawn client client clients a _ fresh found refl all
      refl (unfold rotate in h)
step_kept host_ok clients _ all (toggled clock drawn client a found h) =
    toggle_kept host_ok clock drawn client clients a found all
      (All-first_where IsSecreted (has_number client.id) clients client all found) h
step_kept host_ok clients _ all (deleted client) =
    unfold delete_client in delete_kept client.id clients all

-- However the clients came about from clients that have it, by the form of a new client, by edits,
-- rotations, switches and deletions on the rows as they are, and with drawn secrets that are not empty: a
-- client has the empty secret exactly if its method of authentication is `none`.
pub ClientReach-IsSecreted :
    (host_ok : Text → Bool) (clients clients' : List OAuth2Client)
    → All IsSecreted clients
    → ClientReach host_ok clients clients'
    → All IsSecreted clients'
ClientReach-IsSecreted host_ok clients clients' all start = all
ClientReach-IsSecreted host_ok clients clients' all (then_step {cs} r step) =
    step_kept host_ok cs clients' (ClientReach-IsSecreted host_ok clients cs all r) step

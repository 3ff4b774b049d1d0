-- ===== src/Identity.antt =====
-- What may happen to the accounts: the wallet's callback, the registration form, the setup form, the
-- handlers of the profile and the pages that show a challenge, in any order, at any time and for anyone.
-- The number of a new account is one that no account has: the primary key of the table.
pub mod Kept
pub mod Sound
use satoidc.Common.{◌≡◌, ℕ, Bool, Option, none, List, Outcome, ok}
use satoidc.Common.Rows.{first_where}
use satoidc.Common.Texts.{Text}
use satoidc.Models.{Uuid, Instant, Token, User}
use satoidc.Security.{Session}
use satoidc.Permissions.Store.{AccessStore}
use satoidc.Lnurl.{
  IdentityStore, LnurlAction, LnurlAuthCallbackIn, Handled, CallbackError, is_user,
  lnurl_auth_callback,
}
use satoidc.Lnurl.Challenges.{add_challenge}
use satoidc.Login.{RegisterSchema, register_post}
use satoidc.Profile.{Notice, ProfileError, save_nickname, save_email, save_password, unlink}
use satoidc.Setup.{SetupForm, SetupReply, submit_root}

-- The parameters of all the operations.
pub record Outside : Type 0 where
  pub ttl : ℕ
  pub host_ok : Text → Bool
  pub is_valid_email : Text → Bool
  pub hash_password : Text → Token
  pub verify_signature : Token → Token → Token → Outcome CallbackError Bool
  pub verify_password : Text → Option Token → Outcome ProfileError Bool

abbrev pub with_users : IdentityStore → List User → IdentityStore
with_users s users = record s { users = users }

module _ (o : Outside) where
  pub data IdentityStep (s : IdentityStore) : IdentityStore → Type 0 where
    called_back :
        (now db_now : Instant) (fresh_id : Uuid) (q : LnurlAuthCallbackIn) (h : Handled)
        → first_where (is_user fresh_id) s.users ≡ none
        → lnurl_auth_callback now o.ttl db_now fresh_id o.verify_signature s q ≡ ok h
        → IdentityStep s h.store
    posted_registration :
        (db_now : Instant) (fresh_id : Uuid) (session : Session) (form : RegisterSchema)
        (target : Text) (users' : List User) (session' : Session)
        → first_where (is_user fresh_id) s.users ≡ none
        → register_post o.host_ok o.is_valid_email o.hash_password fresh_id db_now s.users session
            form
          ≡ ok (target, users', session')
        → IdentityStep s (with_users s users')
    set_up :
        (db_now : Instant) (fresh_id : Uuid) (form : SetupForm) (reply : SetupReply)
        (access access' : AccessStore) (users' : List User)
        → first_where (is_user fresh_id) s.users ≡ none
        → submit_root o.is_valid_email o.hash_password fresh_id db_now form s.users access
          ≡ ok (reply, users', access')
        → IdentityStep s (with_users s users')
    saved_nickname :
        (input : Option Text) (user user' : User) (notice : Notice) (users' : List User)
        → save_nickname input user s.users ≡ ok (notice, user', users')
        → IdentityStep s (with_users s users')
    saved_email :
        (input : Option Text) (user user' : User) (notice : Notice) (users' : List User)
        → save_email o.is_valid_email input user s.users ≡ ok (notice, user', users')
        → IdentityStep s (with_users s users')
    saved_password :
        (current new confirm : Option Text) (user user' : User) (notice : Notice)
        (users' : List User)
        → save_password o.verify_password o.hash_password current new confirm user s.users
          ≡ ok (notice, user', users')
        → IdentityStep s (with_users s users')
    unlinked :
        (user user' : User) (notice : Notice) (users' : List User)
        → unlink user s.users ≡ ok (notice, user', users')
        → IdentityStep s (with_users s users')
    showed_challenge :
        (k1 : Token) (db_now : Instant) (action : LnurlAction) (user_id : Option Uuid)
        {s' : IdentityStore}
        → add_challenge k1 db_now action user_id s ≡ ok (k1, s')
        → IdentityStep s s'

  pub data IdentityReach (s : IdentityStore) : IdentityStore → Type 0 where
    start : IdentityReach s s
    then_step : {t u : IdentityStore} → IdentityReach s t → IdentityStep t u → IdentityReach s u

-- ===== src/Profile.antt =====
-- The handlers of the profile page, satoidc/satoidc/routes/profile.py. The page holds the row of its user as
-- it was when the page was loaded; a handler reads this copy, changes the copy and writes the changed
-- columns to the row of that number. A commit for a row that is gone raises.
pub mod Changes
pub mod Password
pub mod Lockout
pub mod View
pub mod Offered
use satoidc.Common.{
  Bool, true, false, not, ◌&&◌, Option, none, some, List, [], ◌∷◌, Outcome, ok, raised, ◌>>=◌, ◌==◌,
  if◌then◌else◌, is_some,
}
use satoidc.Common.Rows.{first_where, update_first}
use satoidc.Common.Texts.{Text, codes, is_empty, text_eq, strip, lower}
use satoidc.Models.{Uuid, Instant, Token, PermissionType, developer, User}
use satoidc.Lnurl.{is_user}
use satoidc.Login.{optional_text_eq}
use satoidc.Validators.{is_valid_nickname, is_valid_password}
use satoidc.Permissions.Store.{AccessStore, AccessError}
use satoidc.Permissions.Events.{RequestEvent, action_created, event_of}
use satoidc.Permissions.Requests.{create_permission_request}

pub data Notice : Type 0 where
  invalid_nickname invalid_email email_in_use incorrect_password weak_password password_mismatch :
      Notice
  password_required updated : Notice

pub data ProfileError : Type 0 where
  stale_row verify_error : ProfileError

-- The notice, the page's copy and the table.
abbrev pub Answer : Type 0
Answer = Outcome ProfileError (Notice × User × List User)

abbrev pub warn : Notice → User → List User → Answer
warn notice user users = ok (notice, user, users)

-- `session.add(user)` and `session.commit()` after a change of columns
abbrev pub write : (User → User) → User → List User → Answer
write change user users =
    if is_some (first_where (is_user user.id) users)
    then ok (updated, change user, update_first (is_user user.id) change users)
    else raised stale_row

abbrev pub set_nickname : Text → User → User
set_nickname value u = record u { nickname = if is_empty value then codes "Satoshi" else value }

abbrev pub set_email : Text → User → User
set_email value u = record u { email = some value }

abbrev pub set_password : Token → User → User
set_password hash u = record u { password_hash = some hash }

abbrev pub unset_pubkey : User → User
unset_pubkey u = record u { lnurl_pubkey = none }

-- `value or ""`
abbrev pub text_or_empty : Option Text → Text
text_or_empty none = []
text_or_empty (some t) = t

unfoldable pub save_nickname : Option Text → User → List User → Answer
save_nickname input user users =
    let value = strip (text_or_empty input) in
    if not (is_valid_nickname value)
    then warn invalid_nickname user users
    else write (set_nickname value) user users

-- Another account has the address.
abbrev pub has_email : Text → Uuid → User → Bool
has_email value id u = optional_text_eq value u.email && not (u.id == id)

unfoldable pub save_email : (Text → Bool) → Option Text → User → List User → Answer
save_email is_valid_email input user users =
    let value = lower (strip (text_or_empty input)) in
    if not (is_valid_email value)
    then warn invalid_email user users
    else if is_some (first_where (has_email value user.id) users)
    then warn email_in_use user users
    else write (set_email value) user users

-- `if user.password_hash`
abbrev pub has_password : User → Bool
has_password u = elim u.password_hash [ none ↦ false | some h ↦ not (h == 0) ]

-- The comparison of two inputs, `None` included
abbrev pub same_input : Option Text → Option Text → Bool
same_input none none = true
same_input none (some t) = false
same_input (some s) none = false
same_input (some s) (some t) = text_eq s t

module _ (verify_password : Text → Option Token → Outcome ProfileError Bool)
    (hash_password : Text → Token) where
  abbrev pub new_password_save : Option Text → Option Text → User → List User → Answer
  new_password_save new confirm user users =
      if not (is_valid_password (text_or_empty new))
      then warn weak_password user users
      else if not (same_input new confirm)
      then warn password_mismatch user users
      else write (set_password (hash_password (text_or_empty new))) user users

  -- The current password is asked for where the copy has one.
  unfoldable pub save_password : Option Text → Option Text → Option Text → User → List User → Answer
  save_password current new confirm user users = do
    good ←
        (if has_password user
          then verify_password (text_or_empty current) user.password_hash
          else ok true)
    if good then new_password_save new confirm user users else warn incorrect_password user users

unfoldable pub unlink : User → List User → Answer
unlink user users =
    if not (has_password user)
    then warn password_required user users
    else write unset_pubkey user users

-- A request for developer access; the requester is told where there is access already.
unfoldable pub request_developer_access :
    Instant → User → Option Text → AccessStore → Outcome AccessError (RequestEvent × AccessStore)
request_developer_access db_now user reason access = do
  (r, access') ← create_permission_request db_now access user.id developer reason
  ok (event_of action_created r, access')

-- ===== src/Setup.antt =====
-- satoidc/setup_wizard/get_root.py and satoidc/setup_wizard/routes.py: the wizard that makes the first root
-- user, from a form or from a wallet. A commit that breaks a constraint of a table raises.
pub mod FirstRoot
pub mod Granted
use satoidc.Common.{
  Bool, true, false, not, Option, none, some, List, [], ◌∷◌, ◌++◌, Outcome, ok, raised, ◌==◌, ◌||◌,
  ◌>>=◌, if◌then◌else◌, is_some, suc,
}
use satoidc.Common.Rows.{first_where}
use satoidc.Common.Texts.{Text, codes, is_empty, strip, lower}
use satoidc.Models.{Uuid, Instant, Token, PermissionType, root, Permission, User}
use satoidc.Permissions.Store.{AccessStore, permission_eq, is_grant}
use satoidc.Permissions.Requests.{max_permission_id}
use satoidc.Validators.{InvalidField, validate_registration_form}
use satoidc.Login.{is_taken}
use satoidc.Lnurl.{AuthEvent}

-- Any permission of the type counts, one that is disabled or expired as well.
unfoldable pub exists_root_user : AccessStore → Bool
exists_root_user access =
    is_some (first_where (λ p. permission_eq p.permission_type root) access.permissions)

-- The program ends the setup where there is a root user, and serves the wizard else.
unfoldable pub serves_wizard : AccessStore → Bool
unfolding exists_root_user
serves_wizard access = not (exists_root_user access)

pub data SetupError : Type 0 where
  integrity_error : SetupError

abbrev pub root_permission : Instant → List Permission → Uuid → Permission
root_permission db_now permissions user_id = record {
  user_id = user_id;
  granted_by = none;
  id = suc (max_permission_id permissions);
  permission_type = root;
  expiration_date = none;
  reason = some (codes "Initial root user created via setup wizard");
  disabled = false;
  created_at = db_now;
}

-- A user holds a type once.
abbrev pub add_root : Instant → Uuid → AccessStore → Outcome SetupError AccessStore
add_root db_now user_id access =
    if is_some (first_where (is_grant user_id root) access.permissions)
    then raised integrity_error
    else ok (record access {
      permissions = access.permissions ++ root_permission db_now access.permissions user_id ∷ [];
    })

pub record SetupForm : Type 0 where
  pub login : Text
  pub email : Text
  pub nickname : Text
  pub password : Text

-- An empty nickname is left to the column's default.
abbrev pub setup_user : (Text → Token) → Uuid → Instant → SetupForm → User
setup_user hash_password fresh_id db_now form = record {
  id = fresh_id;
  lnurl_pubkey = none;
  email = some (lower (strip form.email));
  login = some (strip form.login);
  password_hash = some (hash_password form.password);
  nickname = (let n = strip form.nickname in if is_empty n then codes "Satoshi" else n);
  is_active = true;
  created_at = db_now;
}

pub data SetupReply : Type 0 where
  invalid_fields : List InvalidField → SetupReply
  root_created : SetupReply

-- The reply, the accounts and the permissions.
abbrev pub SetupAnswer : Type 0
SetupAnswer = SetupReply × List User × AccessStore

abbrev pub refused : List InvalidField → List User → AccessStore → SetupAnswer
refused errors users access = (invalid_fields errors, users, access)

module _ (is_valid_email : Text → Bool) (hash_password : Text → Token) (fresh_id : Uuid)
    (db_now : Instant) where
  abbrev pub rooted : SetupForm → List User → AccessStore → SetupAnswer
  rooted form users access = (
    root_created,
    users ++ setup_user hash_password fresh_id db_now form ∷ [],
    record access {
      permissions = access.permissions ++ root_permission db_now access.permissions fresh_id ∷ [];
    },
  )

  abbrev pub commit_root : SetupForm → List User → AccessStore → Outcome SetupError SetupAnswer
  commit_root form users access =
      if is_some (first_where (is_taken (strip form.login) (lower (strip form.email))) users)
        || is_some (first_where (is_grant fresh_id root) access.permissions)
      then raised integrity_error
      else ok (rooted form users access)

  -- The fields are checked as they were typed, and stripped after that.
  unfoldable pub submit_root : SetupForm → List User → AccessStore → Outcome SetupError SetupAnswer
  submit_root form users access =
      let errors =
        validate_registration_form is_valid_email form.login form.nickname form.password
          form.email in
      if not (is_empty errors)
      then ok (refused errors users access)
      else commit_root form users access

-- The handler of the wallet's event on the page that shows `k1`: whether the setup ends, and the
-- permissions. A permission without a user is refused.
abbrev pub root_for : Instant → Option Uuid → AccessStore → Outcome SetupError (Bool × AccessStore)
root_for db_now none access = raised integrity_error
root_for db_now (some id) access = add_root db_now id access >>= λ access'. ok (true, access')

unfoldable pub root_event_handler :
    Instant → Token → AuthEvent → AccessStore → Outcome SetupError (Bool × AccessStore)
root_event_handler db_now k1 event access =
    if event.k1 == k1 then root_for db_now event.user_id access else ok (false, access)

-- ===== src/Tests/Accounts.antt =====
-- The accounts: the profile, the setup and the way of a wallet to a session.
use satoidc.Common.{◌<◌, ◌≡◌, refl, true, false, none, some, [], ◌∷◌, ◌++◌, ok, arith}
use satoidc.Common.Rows.{first_where, update_first, All}
use satoidc.Common.Quoting.{unquote}
use satoidc.Login.Page.{login_target}
use satoidc.Login.Returned.{first_value}
use satoidc.Common.Texts.{Text, codes}
use satoidc.Common.Uuids.{uuid_text}
use satoidc.Models.{Token, User}
use satoidc.Redirect.{safe_redirect}
use satoidc.Permissions.Store.{AccessStore}
use satoidc.Lnurl.{
  IdentityStore, Handled, AuthEvent, committed, lnurl_auth_callback, by_action, status_ok, is_user,
  has_pubkey,
}
use satoidc.Lnurl.Challenges.{login_qrcode}
use satoidc.Login.{TempStorage, event_handler, lnurl_redirect, has_identifier}
use satoidc.Login.Arrived.{login_query, login_qrcode-lnurl_redirect}
use satoidc.Profile.{updated, unset_pubkey, unlink}
use satoidc.Profile.Lockout.{unlink-has_identifier}
use satoidc.Validators.{validate_registration_form}
use satoidc.Setup.{SetupForm, SetupAnswer, setup_user, submit_root, root_created, rooted}
use satoidc.Setup.Granted.{IsSetUp}
use satoidc.Setup.FirstRoot.{submit_root-IsSetUp}
use satoidc.Identity.{Outside, with_users, IdentityReach, start, then_step, called_back, unlinked}
use satoidc.Identity.Kept.{IsSound}
use satoidc.Identity.Sound.{IdentityReach-IsSound}
use satoidc.Tests.Data.{
  any_host, alice, alice_id, visitor, identities, wallet_login, verify, hash_password,
}

abbrev outside : Outside
outside = record {
  ttl = 60;
  host_ok = any_host;
  is_valid_email = λ t. true;
  hash_password = hash_password;
  verify_signature = verify;
  verify_password = λ p h. ok true;
}

abbrev called : Handled
called = committed 20 60 identities identities.users 3 alice_id

answers_call : lnurl_auth_callback 20 60 20 2 verify identities wallet_login ≡ ok called
unfolding lnurl_auth_callback by_action
answers_call = refl

unlinks : unlink alice (alice ∷ []) ≡ ok (updated, unset_pubkey alice, unset_pubkey alice ∷ [])
unfolding unlink
unlinks = refl

reached : IdentityReach outside identities (with_users called.store (unset_pubkey alice ∷ []))
reached =
    then_step (then_step start (called_back 20 20 2 wallet_login called refl answers_call))
      (unlinked alice (unset_pubkey alice) updated (unset_pubkey alice ∷ []) unlinks)

alice-IsSound : IsSound (alice ∷ [])
alice-IsSound = record {
  ids = λ id. ground arith;
  keys = λ k. ground arith;
  logins = λ l. ground arith;
  emails = λ e. ground arith;
}

IdentityReach-IsSound_example : IsSound (unset_pubkey alice ∷ [])
IdentityReach-IsSound_example =
    IdentityReach-IsSound outside identities (with_users called.store (unset_pubkey alice ∷ []))
      alice-IsSound reached

abbrev no_challenges : IdentityStore
no_challenges = record { users = alice ∷ []; challenges = [] }

profile_target : safe_redirect any_host (some (codes "/profile")) ≡ some (codes "/profile")
unfolding safe_redirect
profile_target = refl

ascii_profile : All (λ c. c < 128) (codes "/profile")
ascii_profile = ground arith

login_qrcode-lnurl_redirect_example :
    (s' : IdentityStore) × (login_qrcode 3 20 no_challenges ≡ ok (3, s'))
    × (h : Handled) × (lnurl_auth_callback 25 60 20 2 verify s'
          (login_query 25 60 20 2 verify 3 4 77)
        ≡ ok h)
    × (h.status ≡ status_ok)
    × (event : AuthEvent) × (h.event ≡ some event)
    × (storage' : TempStorage) × (lnurl_redirect any_host
          (event_handler 3 9 event [])
          visitor
          (some (unquote (first_value (login_target (codes "/profile")))))
        ≡ ok (codes "/profile", storage', record visitor { user_id = some (uuid_text alice_id) }))
login_qrcode-lnurl_redirect_example =
    login_qrcode-lnurl_redirect 25 60 20 2 verify any_host no_challenges 3 4 77 9 alice [] visitor
      (some (codes "/profile")) (codes "/profile") refl refl refl refl (λ e. omega arith) refl
      ascii_profile refl profile_target

-- An account that was made by a wallet and has set a password.
abbrev wallet_only : User
wallet_only = record alice { login = none; email = none }

unlink-has_identifier_example :
    (unlink wallet_only (wallet_only ∷ [])
      ≡ ok (
        updated,
        unset_pubkey wallet_only,
        update_first (is_user alice_id) unset_pubkey (wallet_only ∷ []),
      ))
    × (row' : User) × (first_where
          (is_user alice_id)
          (update_first (is_user alice_id) unset_pubkey (wallet_only ∷ []))
        ≡ some row')
    × ((t : Text) → has_identifier t row' ≡ false)
    × ((k : Token) → has_pubkey k row' ≡ false)
unlink-has_identifier_example =
    unlink-has_identifier wallet_only wallet_only (wallet_only ∷ []) refl refl refl refl

abbrev setup_form : SetupForm
setup_form = record {
  login = codes "rootuser";
  email = codes "r@b.c";
  nickname = codes "Root";
  password = codes "Abcdef1!";
}

abbrev no_access : AccessStore
no_access = record { permissions = []; permission_requests = [] }

abbrev set_up : SetupAnswer
set_up = rooted (λ t. true) hash_password 7 20 setup_form [] no_access

sets_up :
    submit_root (λ t. true) hash_password 7 20 setup_form [] no_access
    ≡ ok (root_created, set_up.1, set_up.2)
unfolding submit_root validate_registration_form
sets_up = refl

submit_root-IsSetUp_example :
    IsSetUp 7 no_access set_up.2 × (set_up.1 ≡ [] ++ setup_user hash_password 7 20 setup_form ∷ [])
submit_root-IsSetUp_example =
    submit_root-IsSetUp (λ t. true) hash_password 7 20 setup_form [] set_up.1 no_access set_up.2
      sets_up

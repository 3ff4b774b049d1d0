-- ===== src/Tests/Wallets.antt =====
-- The wallet's callback and the way to the session.
use satoidc.Common.{◌≡◌, ◌≢◌, refl, true, some, ok, arith}
use satoidc.Common.Rows.{first_where}
use satoidc.Models.{Uuid, LnurlAuthChallenge}
use satoidc.Lnurl.{
  LnurlAuthCallbackIn, LnurlAction, Handled, committed, lnurl_auth_callback, by_action, is_usable,
  action_matches, reject, invalid_or_expired_k1, bad_signature,
}
use satoidc.Lnurl.Owned.{Owns, IsKeyed}
use satoidc.Lnurl.Keys.{callback-Owns}
use satoidc.Lnurl.Once.{callback_once, callback_error}
use satoidc.Tests.Data.{alice_id, identities, wallet_login, verify}

abbrev logged_in : Handled
logged_in = committed 20 60 identities identities.users 3 alice_id

answers_login : lnurl_auth_callback 20 60 20 2 verify identities wallet_login ≡ ok logged_in
unfolding lnurl_auth_callback by_action
answers_login = refl

not_auth : some LnurlAction.login ≢ some LnurlAction.auth
not_auth = λ e. cc

callback-Owns_example :
    (id : Uuid) × (logged_in.event ≡ some record { k1 = 3; user_id = some id })
    × Owns 77 id logged_in.store.users
    × (verify 3 77 4 ≡ ok true)
    × (c : LnurlAuthChallenge) × (first_where (is_usable 20 60 3) identities.challenges ≡ some c)
    × (action_matches c.action (some LnurlAction.login) ≡ true)
callback-Owns_example =
    callback-Owns 20 60 20 2 verify identities wallet_login logged_in answers_login refl not_auth

callback_once_example :
    lnurl_auth_callback 30 60 20 2 verify logged_in.store wallet_login
    ≡ ok (reject invalid_or_expired_k1 logged_in.store)
callback_once_example =
    callback_once 20 30 60 20 2 verify identities wallet_login wallet_login logged_in (omega arith)
      answers_login refl not_auth refl

identities-IsKeyed : IsKeyed identities
identities-IsKeyed = record { ids = λ id. ground arith; keys = λ k. ground arith }

abbrev forged : LnurlAuthCallbackIn
forged = record { k1 = 3; sig = 9; key = 77; action = some LnurlAction.login }

answers_forged :
    lnurl_auth_callback 20 60 20 2 verify identities forged ≡ ok (reject bad_signature identities)
unfolding lnurl_auth_callback by_action
answers_forged = refl

callback_error_example : (reject bad_signature identities).store ≡ identities
callback_error_example =
    callback_error 20 20 60 20 2 verify identities forged (reject bad_signature identities)
      answers_forged (λ e. cc)

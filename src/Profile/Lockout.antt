-- ===== src/Profile/Lockout.antt =====
-- An account that nobody can open any more.
use satoidc.Common.{◌≡◌, refl, true, false, none, some, List, [], ◌∷◌, ok, arith}
use satoidc.Common.Rows.{first_where, update_first}
use satoidc.Common.Texts.{Text}
use satoidc.Models.{Uuid, Token, User}
use satoidc.Lnurl.{is_user, has_pubkey}
use satoidc.Login.{has_identifier}
use satoidc.Profile.{updated, has_password, unset_pubkey, unlink}

first_where-update_first :
    (id : Uuid) (users : List User) (row : User)
    → first_where (is_user id) users ≡ some row
    → first_where (is_user id) (update_first (is_user id) unset_pubkey users)
      ≡ some (unset_pubkey row)
first_where-update_first id [] row h = cc
first_where-update_first id (x ∷ xs) row h = ground (arith, first_where-update_first id xs row)

-- An account with a password, and with no login and no address, may unlink its wallet: the handler answers
-- that this has been done, and the account is in the table after it, found by no identifier of the login
-- form and by no wallet key.
pub unlink-has_identifier :
    (user row : User) (users : List User)
    → has_password user ≡ true
    → first_where (is_user user.id) users ≡ some row
    → row.login ≡ none
    → row.email ≡ none
    → (unlink user users
        ≡ ok (updated, unset_pubkey user, update_first (is_user user.id) unset_pubkey users))
      × (row' : User) × (first_where
            (is_user user.id)
            (update_first (is_user user.id) unset_pubkey users)
          ≡ some row')
      × ((t : Text) → has_identifier t row' ≡ false)
      × ((k : Token) → has_pubkey k row' ≡ false)
unfolding unlink
unlink-has_identifier user row users has found no_login no_email = (
  (rw (has, found) refl),
  unset_pubkey row,
  first_where-update_first user.id users row found,
  (λ t. rw (no_login, no_email) refl),
  (λ k. refl),
)

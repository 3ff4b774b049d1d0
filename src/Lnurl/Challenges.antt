-- ===== src/Lnurl/Challenges.antt =====
-- The challenges that the pages show as QR codes: `refresh_qrcode` of satoidc/satoidc/routes/login.py,
-- register.py and profile.py and of satoidc/setup_wizard/routes.py. `k1` is the token that the column's
-- default draws; a second challenge with it is refused by the database.
use satoidc.Common.{
  false, Option, none, some, [], ◌∷◌, ◌++◌, Outcome, ok, raised, if◌then◌else◌, is_some,
}
use satoidc.Common.Rows.{first_where}
use satoidc.Models.{Uuid, Instant, Token, User, LnurlAuthChallenge}
use satoidc.Lnurl.{IdentityStore, LnurlAction, action_text, has_k1}

pub data ChallengeError : Type 0 where
  duplicate_k1 : ChallengeError

abbrev pub new_challenge : Token → Instant → LnurlAction → Option Uuid → LnurlAuthChallenge
new_challenge k1 db_now action user_id = record {
  user_id = user_id;
  k1 = k1;
  action = action_text action;
  consumed = false;
  created_at = db_now;
}

-- The k1 that the page then shows, and the store.
unfoldable pub add_challenge :
    Token
    → Instant
    → LnurlAction
    → Option Uuid
    → IdentityStore
    → Outcome ChallengeError (Token × IdentityStore)
add_challenge k1 db_now action user_id s =
    if is_some (first_where (has_k1 k1) s.challenges)
    then raised duplicate_k1
    else ok
        (k1, record s { challenges = s.challenges ++ new_challenge k1 db_now action user_id ∷ [] })

module _ (k1 : Token) (db_now : Instant) where
  unfoldable pub login_qrcode : IdentityStore → Outcome ChallengeError (Token × IdentityStore)
  login_qrcode s = add_challenge k1 db_now LnurlAction.login none s

  unfoldable pub register_qrcode : IdentityStore → Outcome ChallengeError (Token × IdentityStore)
  register_qrcode s = add_challenge k1 db_now LnurlAction.register none s

  unfoldable pub root_qrcode : IdentityStore → Outcome ChallengeError (Token × IdentityStore)
  root_qrcode s = add_challenge k1 db_now LnurlAction.register none s

  -- For the user of the profile page.
  unfoldable pub link_qrcode : User → IdentityStore → Outcome ChallengeError (Token × IdentityStore)
  link_qrcode user s = add_challenge k1 db_now LnurlAction.link (some user.id) s

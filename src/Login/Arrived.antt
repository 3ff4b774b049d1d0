-- ===== src/Login/Arrived.antt =====
-- A login with a wallet from the page's challenge to the browser's session.
use satoidc.Common.{
  ℕ, ◌+◌, ◌≡◌, ◌≢◌, refl, Bool, true, Option, none, some, List, [], ◌∷◌, ◌++◌, Outcome, ok, leb,
  ==_refl, arith, ◌<◌,
}
use satoidc.Common.Rows.{first_where, All}
use satoidc.Common.Texts.{Text}
use satoidc.Common.Quoting.{unquote}
use satoidc.Common.Uuids.{uuid_text}
use satoidc.Models.{Uuid, Instant, Token, seconds, User, LnurlAuthChallenge}
use satoidc.Security.{Session}
use satoidc.Redirect.{safe_redirect}
use satoidc.Lnurl.{
  IdentityStore, LnurlAction, LnurlAuthCallbackIn, AuthEvent, Handled, CallbackError, status_ok,
  has_k1, has_pubkey, is_usable, committed, lnurl_auth_callback, by_action,
}
use satoidc.Lnurl.Challenges.{new_challenge, add_challenge, login_qrcode}
use satoidc.Login.{TempStorage, event_handler, lnurl_redirect}
use satoidc.Login.Page.{login_target}
use satoidc.Login.Returned.{first_value, login_target-first_value}
use satoidc.Redirect.Relative.{safe_redirect_again}
use satoidc.Login.Wallet.{lnurl_redirect-event_handler}

module _ (now : Instant) (ttl : ℕ) (db_now : Instant) where
  -- The challenge that a page has just added is the one that its token finds.
  usable_new :
      (k1 : Token) (action : LnurlAction) (cs : List LnurlAuthChallenge)
      → first_where (has_k1 k1) cs ≡ none
      → leb now (db_now + seconds ttl) ≡ true
      → first_where (is_usable now ttl k1) (cs ++ new_challenge k1 db_now action none ∷ [])
        ≡ some (new_challenge k1 db_now action none)
  usable_new k1 action [] fresh timely = rw (==_refl k1, timely) refl
  usable_new k1 action (c ∷ cs) fresh timely = ground (arith, usable_new k1 action cs)

  module _ (fresh_id : Uuid) (verify : Token → Token → Token → Outcome CallbackError Bool) where
    abbrev pub login_query : Token → Token → Token → LnurlAuthCallbackIn
    login_query k1 sig key = record {
      k1 = k1;
      sig = sig;
      key = key;
      action = some LnurlAction.login;
    }

    abbrev pub shown : IdentityStore → Token → IdentityStore
    shown s k1 = record s {
      challenges = s.challenges ++ new_challenge k1 db_now LnurlAction.login none ∷ [];
    }

    answered :
        (s : IdentityStore) (k1 sig key : Token) (u : User)
        → first_where (has_k1 k1) s.challenges ≡ none
        → leb now (db_now + seconds ttl) ≡ true
        → verify k1 key sig ≡ ok true
        → first_where (has_pubkey key) s.users ≡ some u
        → lnurl_auth_callback now ttl db_now fresh_id verify (shown s k1) (login_query k1 sig key)
          ≡ ok (committed now ttl (shown s k1) s.users k1 u.id)
    unfolding lnurl_auth_callback by_action
    answered s k1 sig key u fresh timely signed owner =
        rw (usable_new k1 LnurlAction.login s.challenges fresh timely) (rw (signed, owner) refl)

    -- A login page that shows a fresh challenge to a browser with the page's nonce, and a wallet whose key is an
    -- account's and that signs in time: the callback answers "OK" and announces the account, and the request for
    -- the address to which the page then sends the browser, its `redirect_to` read from that address, makes it a
    -- session of that account, at the target of the page. The target is in ASCII, and the checks of a host accept
    -- the empty one.
    pub login_qrcode-lnurl_redirect :
        (host_ok : Text → Bool) (s : IdentityStore) (k1 sig key nonce : Token) (u : User)
        (storage : TempStorage) (session : Session) (redirect_to : Option Text) (target : Text)
        → first_where (has_k1 k1) s.challenges ≡ none
        → leb now (db_now + seconds ttl) ≡ true
        → verify k1 key sig ≡ ok true
        → first_where (has_pubkey key) s.users ≡ some u
        → nonce ≢ 0
        → host_ok [] ≡ true
        → All (λ c. c < 128) target
        → session.login_nonce ≡ some nonce
        → safe_redirect host_ok redirect_to ≡ some target
        → (s' : IdentityStore) × (login_qrcode k1 db_now s ≡ ok (k1, s'))
          × (h : Handled) × (lnurl_auth_callback now ttl db_now fresh_id verify s'
                (login_query k1 sig key)
              ≡ ok h)
          × (h.status ≡ status_ok)
          × (event : AuthEvent) × (h.event ≡ some event)
          × (storage' : TempStorage) × (lnurl_redirect host_ok
                (event_handler k1 nonce event storage)
                session
                (some (unquote (first_value (login_target target))))
              ≡ ok (target, storage', record session { user_id = some (uuid_text u.id) }))
    unfolding login_qrcode add_challenge
    login_qrcode-lnurl_redirect host_ok s k1 sig key nonce u storage session redirect_to target
          fresh timely signed owner nonzero empty_host ascii has to =
        let again : safe_redirect host_ok (some (unquote (first_value (login_target target))))
            ≡ some target =
          rw (login_target-first_value target ascii)
            (safe_redirect_again host_ok redirect_to target empty_host to) in
        let (storage', arrived, _) =
          lnurl_redirect-event_handler host_ok k1 nonce u.id storage session
            (some (unquote (first_value (login_target target)))) target nonzero has again in
        (
          shown s k1,
          (rw fresh refl),
          committed now ttl (shown s k1) s.users k1 u.id,
          answered s k1 sig key u fresh timely signed owner,
          refl,
          record { k1 = k1; user_id = some u.id },
          refl,
          storage',
          arrived,
        )

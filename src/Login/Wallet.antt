-- ===== src/Login/Wallet.antt =====
-- The way of a wallet login from the event of the callback to the browser's session.
use satoidc.Common.{
  ℕ, ◌≡◌, ◌≢◌, refl, Bool, false, Option, none, some, [], ◌∷◌, ok, ◌==◌, ==_refl, arith,
}
use satoidc.Common.Texts.{Text}
use satoidc.Common.Uuids.{uuid_text}
use satoidc.Models.{Uuid, Token}
use satoidc.Security.{Session}
use satoidc.Redirect.{safe_redirect}
use satoidc.Lnurl.{AuthEvent}
use satoidc.Login.{TempStorage, stored, pop, event_handler, lnurl_redirect}

stored-pop :
    (n m : Token) (storage : TempStorage) → n ≢ m → stored n (pop m storage) ≡ stored n storage
stored-pop n m [] h = refl
stored-pop n m ((k, u) ∷ rest) h = ground (arith, stored-pop n m rest h, h)

stored-pop_same : (n : Token) (storage : TempStorage) → stored n (pop n storage) ≡ none
stored-pop_same n [] = refl
stored-pop_same n ((k, u) ∷ rest) = ground (arith, stored-pop_same n rest)

not_zero : (n : ℕ) → n ≢ 0 → (n == 0) ≡ false
not_zero n h = ground (arith, h)

module _ (host_ok : Text → Bool) where
  -- After the event of the wallet's callback for the challenge that a login page shows, the browser of that
  -- page, which has the page's nonce, is logged in as the announced account at the redirect, and the
  -- redirect takes the entry out of the storage.
  pub lnurl_redirect-event_handler :
      (k1 nonce : Token) (id : Uuid) (storage : TempStorage) (session : Session)
      (redirect_to : Option Text) (target : Text)
      → nonce ≢ 0
      → session.login_nonce ≡ some nonce
      → safe_redirect host_ok redirect_to ≡ some target
      → (storage' : TempStorage) × (lnurl_redirect host_ok
            (event_handler k1 nonce record { k1 = k1; user_id = some id } storage)
            session
            redirect_to
          ≡ ok (target, storage', record session { user_id = some (uuid_text id) }))
        × (stored nonce storage' ≡ none)
  unfolding lnurl_redirect event_handler
  lnurl_redirect-event_handler k1 nonce id storage session redirect_to target nonzero has to = (
    pop nonce (event_handler k1 nonce record { k1 = k1; user_id = some id } storage),
    rw (has, to, ==_refl k1, not_zero nonce nonzero, ==_refl nonce) refl,
    stored-pop_same nonce _,
  )

  -- An event for a page with another nonce changes nothing of what a session is given.
  pub event_handler-stored :
      (k1 nonce mine : Token) (event : AuthEvent) (storage : TempStorage)
      → mine ≢ nonce
      → stored mine (event_handler k1 nonce event storage) ≡ stored mine storage
  unfolding event_handler
  event_handler-stored k1 nonce mine event storage other =
      ground (arith, stored-pop mine nonce storage other)

-- ===== src/Middleware/Boundary.antt =====
-- The boundary between public and protected requests.
use mathlib.Core.Path.{subst}
use satoidc.Common.{
  ◌≡◌, refl, Bool, true, false, ◌||◌, List, [], ◌∷◌, ◌++◌, arith, if◌then◌else◌, ◌↔◌, ◌⊎◌, inl, inr,
  Bool-cases, ◌<◌,
}
use satoidc.Common.Texts.{Text, elem_text, starts_with, text_eq, text_eq_sound}
use satoidc.Common.Rows.{All}
use satoidc.Common.Quoting.{quote, unquote, unquote-quote}
use satoidc.Security.{Session}
use satoidc.Middleware.{
  public_exact, public_prefixes, starts_with_any, is_logged_out, full_path, login_prefix, call_next,
  redirect, dispatch,
}

-- The path is listed, or begins with a listed prefix.
abbrev pub is_public : Text → Bool
is_public path = elem_text path public_exact || starts_with_any public_prefixes path

starts_with-append : (p s : Text) → starts_with p (p ++ s) ≡ true
starts_with-append [] s = refl
starts_with-append (c ∷ p) s = ground (arith, starts_with-append p s)

starts_with_any-elem :
    (p s : Text) (ps : List Text) → elem_text p ps ≡ true → starts_with_any ps (p ++ s) ≡ true
starts_with_any-elem p s [] h = cc
starts_with_any-elem p s (q ∷ ps) h = elim (Bool-cases (text_eq p q)) [
  | inl same ↦
      let e = text_eq_sound p q same in
      rw (subst (λ t. starts_with t (p ++ s) ≡ true) e (starts_with-append p s)) refl
  | inr other ↦ ground (arith, starts_with_any-elem p s ps)
]

or_true : (a : Bool) {b : Bool} → b ≡ true → a || b ≡ true
or_true true h = refl
or_true false h = h

-- The three tests of `dispatch`.
gate_passes :
    (listed prefixed logged_out : Bool) (url : Text)
    → ((if listed
          then call_next
          else if prefixed
          then call_next
          else if logged_out
          then redirect url
          else call_next)
        ≡ call_next)
      ↔ ((listed || prefixed ≡ true) ⊎ (logged_out ≡ false))
gate_passes true prefixed logged_out url = (λ h. inl refl, λ h. refl)
gate_passes false true logged_out url = (λ h. inl refl, λ h. refl)
gate_passes false false true url = (λ h. cc, λ h. ground arith)
gate_passes false false false url = (λ h. inr refl, λ h. refl)

gate_redirects :
    (listed prefixed logged_out : Bool) (url : Text)
    → listed || prefixed ≡ false
    → logged_out ≡ true
    → (if listed
        then call_next
        else if prefixed
        then call_next
        else if logged_out
        then redirect url
        else call_next)
      ≡ redirect url
gate_redirects listed prefixed logged_out url h k = ground arith

module _ (path query : Text) (session : Session) where
  -- A request reaches its route exactly when the path is public or the session has a user.
  pub dispatch-call_next :
      (dispatch path query session ≡ call_next)
      ↔ ((is_public path ≡ true) ⊎ (is_logged_out session.user_id ≡ false))
  unfolding dispatch
  dispatch-call_next =
      gate_passes (elem_text path public_exact) (starts_with_any public_prefixes path)
        (is_logged_out session.user_id) (login_prefix ++ quote (full_path path query))

  -- Any other request, if its path and query are ASCII, is sent to the login page, with a `redirect_to`
  -- that reads back as the path and the query that were asked for.
  pub dispatch-redirect :
      is_public path ≡ false
      → is_logged_out session.user_id ≡ true
      → All (λ c. c < 128) (full_path path query)
      → (target : Text) × (dispatch path query session ≡ redirect (login_prefix ++ target))
        × (unquote target ≡ full_path path query)
  unfolding dispatch
  dispatch-redirect hidden nobody ascii = (
    quote (full_path path query),
    gate_redirects (elem_text path public_exact) (starts_with_any public_prefixes path)
        (is_logged_out session.user_id) (login_prefix ++ quote (full_path path query)) hidden
        nobody,
    unquote-quote (full_path path query) ascii,
  )

-- The prefixes are not cut at a path segment: whatever follows a public prefix, as in
-- `/oauth-settings`, the request passes with no login.
pub dispatch_lookalike :
    (prefix suffix query : Text) (session : Session)
    → elem_text prefix public_prefixes ≡ true
    → dispatch (prefix ++ suffix) query session ≡ call_next
dispatch_lookalike prefix suffix query session h =
    (dispatch-call_next (prefix ++ suffix) query session).1 (
      inl (
        or_true (elem_text (prefix ++ suffix) public_exact)
          (starts_with_any-elem prefix suffix public_prefixes h)))

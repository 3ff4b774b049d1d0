-- ===== src/Examples/Shown.antt =====
-- Whose claims the client shows.
use satoidc.Common.{
  ℕ, ◌≡◌, refl, ap, true, false, Option, none, some, List, [], ◌∷◌, inl, inr, Bool-cases, arith,
}
use satoidc.Common.Texts.{Text, is_empty}
use satoidc.Examples.{
  UserInfo, Storage, user_shown, Authorized, token, oauth_failed, failed, Arguments, is_valid, main,
  logout, auth, or_empty_info, valid_or_redirect,
}

-- What happens in one browser, at a time.
pub data Event : Type 0 where
  visited : ℕ → Event
  called_back : ℕ → Authorized → Event
  logged_out : Event

module _ (int_of_text : Text → Option ℕ) (args : Arguments) where
  abbrev pub after : Event → Storage → Storage
  after (visited now) s = (main int_of_text args now s).1
  after (called_back now result) s = auth int_of_text args now result s
  after logged_out s = logout int_of_text args s

  -- Events from an empty storage, the last one first.
  abbrev pub after_all : List Event → Storage
  after_all [] = record { user_info = none; oauth_error = none }
  after_all (e ∷ es) = after e (after_all es)

  abbrev pub Brings : Event → UserInfo → Type 0
  Brings (called_back now (token claims)) info =
      (or_empty_info int_of_text args claims ≡ info) × (is_valid int_of_text args now info ≡ true)
  Brings _ info = ⊥

  abbrev pub Ends : Event → Type 0
  Ends logged_out = Unit
  Ends _ = ⊥

  -- A callback has brought the claims, valid then, and no logout came after it.
  pub data Since (info : UserInfo) : List Event → Type 0 where
    brought : (e : Event) (es : List Event) → Brings e info → Since info (e ∷ es)
    still : (e : Event) (es : List Event) → (Ends e → ⊥) → Since info es → Since info (e ∷ es)

  empty_invalid : (now : ℕ) → is_valid int_of_text args now [] ≡ false
  unfolding is_valid
  empty_invalid now = ground arith

  valid_shown :
      (now : ℕ) (stored : Option UserInfo) (info : UserInfo)
      → (valid_or_redirect int_of_text args now stored).0 ≡ user_shown info
      → (stored ≡ some info) × (is_valid int_of_text args now info ≡ true)
  valid_shown now none info h = absurd (ground (arith, empty_invalid now))
  valid_shown now (some stored) info h = elim (Bool-cases (is_valid int_of_text args now stored)) [
    | inl valid ↦ let same : stored ≡ info = ground arith in (ap some same, rw (← same) valid)
    | inr invalid ↦ absurd (ground arith)
  ]

  valid_kept :
      (now : ℕ) (stored : Option UserInfo) (info : UserInfo)
      → (valid_or_redirect int_of_text args now stored).1.user_info ≡ some info
      → stored ≡ some info
  valid_kept now stored info h = ground arith

  main_shown :
      (now : ℕ) (s : Storage) (info : UserInfo)
      → (main int_of_text args now s).0 ≡ user_shown info
      → (s.user_info ≡ some info) × (is_valid int_of_text args now info ≡ true)
  unfolding main
  main_shown now s info h = by_error s.oauth_error refl
    where
      by_error :
          (o : Option Text)
          → s.oauth_error ≡ o
          → (s.user_info ≡ some info) × (is_valid int_of_text args now info ≡ true)
      by_error none e = valid_shown now s.user_info info (rw e at h)
      by_error (some t) e = elim (Bool-cases (is_empty t)) [
        | inl empty ↦ valid_shown now s.user_info info (rw (e, empty) at h)
        | inr shown ↦ absurd (cc (rw (e, shown) at h))
      ]

  main_kept :
      (now : ℕ) (s : Storage) (info : UserInfo)
      → (main int_of_text args now s).1.user_info ≡ some info
      → s.user_info ≡ some info
  unfolding main
  main_kept now s info h = by_error s.oauth_error refl
    where
      by_error : (o : Option Text) → s.oauth_error ≡ o → s.user_info ≡ some info
      by_error none e = valid_kept now s.user_info info (rw e at h)
      by_error (some t) e = elim (Bool-cases (is_empty t)) [
        | inl empty ↦ valid_kept now s.user_info info (rw (e, empty) at h)
        | inr shown ↦ rw (e, shown) at h
      ]

  auth_kept :
      (now : ℕ) (result : Authorized) (es : List Event) (s : Storage) (info : UserInfo)
      → (auth int_of_text args now result s).user_info ≡ some info
      → (s.user_info ≡ some info → Since info es)
      → Since info (called_back now result ∷ es)
  unfolding auth
  auth_kept now (oauth_failed error description) es s info h earlier =
      still _ es (λ x. x) (earlier h)
  auth_kept now (failed description) es s info h earlier = still _ es (λ x. x) (earlier h)
  auth_kept now (token claims) es s info h earlier =
      elim (Bool-cases (is_valid int_of_text args now (or_empty_info int_of_text args claims))) [
        | inl valid ↦
            let same : or_empty_info int_of_text args claims ≡ info = ground arith in
            brought _ es (same, rw (← same) valid)
        | inr invalid ↦ still _ es (λ x. x) (earlier (rw invalid at h))
      ]

  stored-Since :
      (es : List Event) (info : UserInfo) → (after_all es).user_info ≡ some info → Since info es
  unfolding logout
  stored-Since [] info h = cc
  stored-Since (visited now ∷ es) info h =
      still _ es (λ x. x) (stored-Since es info (main_kept now (after_all es) info h))
  stored-Since (called_back now result ∷ es) info h =
      auth_kept now result es (after_all es) info h (stored-Since es info)
  stored-Since (logged_out ∷ es) info h = cc

  -- Whatever happens in a browser, from an empty storage: claims that the page shows are valid at that time,
  -- and a callback has brought them, valid then, with no logout after it.
  pub main-Since :
      (es : List Event) (now : ℕ) (info : UserInfo)
      → (main int_of_text args now (after_all es)).0 ≡ user_shown info
      → Since info es × (is_valid int_of_text args now info ≡ true)
  main-Since es now info h =
      let (stored, valid) = main_shown now (after_all es) info h in
      (stored-Since es info stored, valid)

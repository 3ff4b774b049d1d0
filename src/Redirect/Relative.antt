-- ===== src/Redirect/Relative.antt =====
-- Which texts `safe_redirect` returns.
use mathlib.Core.Path.{subst}
use satoidc.Common.{
  sym, ◌⊎◌, ℕ, ◌≡◌, refl, Bool, true, false, not, ◌||◌, ◌==◌, ◌&&◌, ◌∙◌, ap, ◌↔◌, Option, none,
  some, [], ◌∷◌, ◌++◌, arith, inl, inr, if◌then◌else◌,
}
use satoidc.Common.Texts.{Text, codes, is_empty, starts_with}
use satoidc.Redirect.{safe_redirect, split_host, drop_breaks, urlparse}

-- Two slashes and a character that can stand in a host, tabs and line ends aside.
abbrev begins_host : Text → Bool
begins_host [] = false
begins_host (a ∷ []) = false
begins_host (a ∷ b ∷ []) = false
begins_host (a ∷ b ∷ c ∷ s) = a == b'/' && b == b'/' && not (c == b'/' || c == b'?' || c == b'#')

abbrev pub has_host : Text → Bool
has_host t = begins_host (drop_breaks t)

split_host-begins_host : (t : Text) → is_empty (split_host t) ≡ not (begins_host t)
split_host-begins_host [] = refl
split_host-begins_host (a ∷ []) = refl
split_host-begins_host (a ∷ b ∷ []) = ground arith
split_host-begins_host (a ∷ b ∷ c ∷ s) = ground arith

some_inj : {t u : Text} → some t ≡ some u → t ≡ u
some_inj h = cc

-- What passes the three tests.
passed :
    (ok bad slash : Bool) (t target : Text)
    → (if not ok
        then none
        else if bad
        then some (codes "/")
        else if not slash
        then some (codes "/")
        else some t)
      ≡ some target
    → (target ≡ codes "/") ⊎ ((target ≡ t) × (bad ≡ false) × (slash ≡ true))
passed false bad slash t target h = cc
passed true true slash t target h = inl (sym (some_inj h))
passed true false false t target h = inl (sym (some_inj h))
passed true false true t target h = inr (sym (some_inj h), refl, refl)

three :
    (ok bad slash : Bool) (t : Text)
    → let answer : Option Text =
        (if not ok
          then none
          else if bad
          then some (codes "/")
          else if not slash
          then some (codes "/")
          else some t) in
      (answer ≡ some t) ⊎ ((answer ≡ some (codes "/")) ⊎ (answer ≡ none))
three false bad slash t = inr (inr refl)
three true true slash t = inr (inl refl)
three true false false t = inr (inl refl)
three true false true t = inl refl

-- A text that begins with a slash has no scheme, and its host is looked for at its start.
slash_netloc :
    (s : Text)
    → (urlparse (b'/' ∷ s)).has_scheme || not (is_empty (urlparse (b'/' ∷ s)).netloc)
      ≡ has_host (b'/' ∷ s)
unfolding urlparse
slash_netloc s = ground (arith, split_host-begins_host (drop_breaks (b'/' ∷ s)))

unhosted :
    (c : ℕ) (s : Text)
    → starts_with (codes "/") (c ∷ s) ≡ true
    → (urlparse (c ∷ s)).has_scheme || not (is_empty (urlparse (c ∷ s)).netloc) ≡ false
    → has_host (c ∷ s) ≡ false
unhosted c s slash =
    let e : b'/' ≡ c = ground arith in
    subst
      (λ d.
        (urlparse (d ∷ s)).has_scheme || not (is_empty (urlparse (d ∷ s)).netloc) ≡ false
        → has_host (d ∷ s) ≡ false)
      e (λ k. sym (slash_netloc s) ∙ k)

empty_text : (t : Text) → is_empty t ≡ true → t ≡ []
empty_text [] h = refl
empty_text (c ∷ s) h = cc

abbrev IsAimed : Text → Type 0
IsAimed t = (starts_with (codes "/") t ≡ true) × (has_host t ≡ false)

module _ (host_ok : Text → Bool) where
  -- What is returned begins with a slash, and no host follows.
  safe_redirect-has_host :
      (given : Option Text) (target : Text)
      → safe_redirect host_ok given ≡ some target
      → (starts_with (codes "/") target ≡ true) × (has_host target ≡ false)
  unfolding safe_redirect
  safe_redirect-has_host none target h = subst IsAimed (some_inj h) (refl, refl)
  safe_redirect-has_host (some []) target h = subst IsAimed (some_inj h) (refl, refl)
  safe_redirect-has_host (some (c ∷ s)) target h = elim (passed _ _ _ (c ∷ s) target h) [
    | inl home ↦ subst IsAimed (sym home) (refl, refl)
    | inr (same, no_host, slash) ↦ subst IsAimed (sym same) (slash, unhosted c s slash no_host)
  ]

  slash_passes :
      (s : Text)
      → has_host (b'/' ∷ s) ≡ false
      → host_ok [] ≡ true
      → safe_redirect host_ok (some (b'/' ∷ s)) ≡ some (b'/' ∷ s)
  unfolding safe_redirect urlparse
  slash_passes s none_follows ok =
      rw
        (
          empty_text (split_host (drop_breaks (b'/' ∷ s)))
              (split_host-begins_host (drop_breaks (b'/' ∷ s)) ∙ ap not none_follows),
          ok,
        )
        refl

  accepted : (t : Text) → host_ok [] ≡ true → IsAimed t → safe_redirect host_ok (some t) ≡ some t
  accepted [] ok (slash, no_host) = cc
  accepted (c ∷ s) ok (slash, no_host) =
      let e : b'/' ≡ c = ground arith in
      subst (λ d. has_host (d ∷ s) ≡ false → safe_redirect host_ok (some (d ∷ s)) ≡ some (d ∷ s)) e
        (λ k. slash_passes s k ok) no_host

  one_of_three :
      (t : Text)
      → (safe_redirect host_ok (some t) ≡ some t)
        ⊎ ((safe_redirect host_ok (some t) ≡ some (codes "/"))
            ⊎ (safe_redirect host_ok (some t) ≡ none))
  unfolding safe_redirect
  one_of_three [] = inr (inl refl)
  one_of_three (c ∷ s) = three _ _ _ (c ∷ s)

  -- For a text, the answer is the text itself, `/`, or the `ValueError`. It is the text itself exactly where the text
  -- begins with a slash that is not followed at once by a second one and a character that can stand in a host, tabs
  -- and line ends aside, where the checks of a host accept the empty one.
  pub safe_redirect-same :
      (t : Text)
      → host_ok [] ≡ true
      → ((safe_redirect host_ok (some t) ≡ some t)
          ⊎ ((safe_redirect host_ok (some t) ≡ some (codes "/"))
              ⊎ (safe_redirect host_ok (some t) ≡ none)))
        × ((safe_redirect host_ok (some t) ≡ some t)
            ↔ ((starts_with (codes "/") t ≡ true) × (has_host t ≡ false)))
  safe_redirect-same t ok = (one_of_three t, (safe_redirect-has_host (some t) t, accepted t ok))

  -- What is returned is returned again.
  pub safe_redirect_again :
      (given : Option Text) (target : Text)
      → host_ok [] ≡ true
      → safe_redirect host_ok given ≡ some target
      → safe_redirect host_ok (some target) ≡ some target
  safe_redirect_again given target ok h = accepted target ok (safe_redirect-has_host given target h)

  -- A text that begins with three slashes is accepted as it is, whatever follows, where the checks of a
  -- host accept the empty one.
  pub safe_redirect_slashes :
      (s : Text)
      → host_ok [] ≡ true
      → safe_redirect host_ok (some (codes "///" ++ s)) ≡ some (codes "///" ++ s)
  unfolding safe_redirect
  safe_redirect_slashes s ok = rw ok

  -- A text that begins with a slash and a backslash is accepted as it is, whatever follows, where the
  -- checks of a host accept the empty one.
  pub safe_redirect_backslash :
      (s : Text)
      → host_ok [] ≡ true
      → safe_redirect host_ok (some (b'/' ∷ b'\\' ∷ s)) ≡ some (b'/' ∷ b'\\' ∷ s)
  unfolding safe_redirect
  safe_redirect_backslash s ok = rw ok

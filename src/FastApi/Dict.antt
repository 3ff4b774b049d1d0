-- ===== src/FastApi/Dict.antt =====
-- A dictionary of Python as the list of its entries in the order of insertion.
use satoidc.Common.{
  ◌≡◌, refl, false, Option, none, some, List, [], ◌∷◌, if◌then◌else◌, inl, inr, Bool-cases,
}
use satoidc.Common.Texts.{Text, text_eq, text_eq_sound, text_eq_refl}

abbrev pub Dict {ℓ} : Type ℓ → Type ℓ
Dict A = List (Text × A)

module _ {ℓ} {A : Type ℓ} where
  -- `d.get(k)`
  abbrev pub get : Text → Dict A → Option A
  get k [] = none
  get k ((j, a) ∷ d) = if text_eq k j then some a else get k d

  -- `d[k] = a`
  abbrev pub set : Text → A → Dict A → Dict A
  set k a [] = (k, a) ∷ []
  set k a ((j, b) ∷ d) = let rest = set k a d in if text_eq k j then (j, a) ∷ d else (j, b) ∷ rest

  -- `d.update(…)`, and the building of a dictionary from a list of entries
  abbrev pub update : List (Text × A) → Dict A → Dict A
  update [] d = d
  update ((k, a) ∷ entries) d = update entries (set k a d)

  -- The last entry of the key, and `otherwise` where there is none.
  abbrev pub last_of : Text → List (Text × A) → Option A → Option A
  last_of k [] otherwise = otherwise
  last_of k ((j, a) ∷ entries) otherwise =
      last_of k entries (if text_eq k j then some a else otherwise)

  pub get-set :
      (k j : Text) (a : A) (d : Dict A)
      → get k (set j a d) ≡ (if text_eq k j then some a else get k d)
  get-set k j a [] = refl
  get-set k j a ((i, b) ∷ d) = elim (Bool-cases (text_eq j i)) [
    | inl same ↦
        let e : j ≡ i = text_eq_sound j i same in
        rw (same, e) (elim (Bool-cases (text_eq k i)) [ inl t ↦ rw t refl | inr f ↦ rw f refl ])
    | inr other ↦
        rw (other, get-set k j a d)
          (elim (Bool-cases (text_eq k i)) [
            | inr f ↦ rw f refl
            | inl t ↦
                let e : k ≡ i = text_eq_sound k i t in
                let differs : text_eq k j ≡ false = elim (Bool-cases (text_eq k j)) [
                  | inr f ↦ f
                  | inl u ↦ absurd (let e' : k ≡ j = text_eq_sound k j u in cc (text_eq_refl j))
                ] in
                rw (t, differs) refl
          ])
  ]

  -- After an update a key has the last of its new values, and its old one where it has no new one.
  pub get-update :
      (k : Text) (entries : List (Text × A)) (d : Dict A)
      → get k (update entries d) ≡ last_of k entries (get k d)
  get-update k [] d = refl
  get-update k ((j, a) ∷ entries) d = rw (get-update k entries (set j a d), get-set k j a d) refl

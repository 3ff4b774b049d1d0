-- ===== src/FastApi/Merged.antt =====
-- What a payload says of a key.
use satoidc.Common.{
  ℕ, subst, ◌≡◌, refl, sym, ap, ◌∙◌, true, false, not, ◌||◌, Option, none, some, List, [], ◌∷◌, map,
  Outcome, ok, >>=-ok, ok_value, if◌then◌else◌, inl, inr, Bool-cases,
}
use satoidc.Common.Rows.{rows_where}
use satoidc.Common.Texts.{Text, is_empty, text_eq, text_eq_sound, text_eq_refl, elem_text}
use satoidc.Permissions.Store.{head_row}
use satoidc.FastApi.Dict.{get, last_of, get-set}
use satoidc.FastApi.Payload.{
  BodyValue, PayloadError, Request, Json, Loaded, values, put_values, load_body, load_query,
  keys_of, getlist, has_body_method, or_json, parse_cached_form, load,
}

abbrev pub head_of : {V : Type 0} → Option (List V) → Option (Option V)
head_of none = none
head_of (some vs) = some (head_row vs)

module _ {V : Type 0} where
  -- The value of a key is the first of its values.
  abbrev pub Heads : Loaded V → Type 0
  Heads l = (k : Text) → get k l.payload_data ≡ head_of (get k l.datalist)

  put_values-Heads : (k : Text) (vs : List V) (l : Loaded V) → Heads l → Heads (put_values k vs l)
  put_values-Heads k vs l heads j =
      rw (get-set j k (head_row vs) l.payload_data, get-set j k vs l.datalist)
        (elim (Bool-cases (text_eq j k)) [ inl t ↦ rw t refl | inr f ↦ rw f (heads j) ])

  load_body-Heads :
      (items : List (Text × BodyValue V)) (l : Loaded V) → Heads l → Heads (load_body items l)
  load_body-Heads [] l heads = heads
  load_body-Heads ((k, v) ∷ items) l heads =
      load_body-Heads items (put_values k (values v) l) (put_values-Heads k (values v) l heads)

  abbrev pub listed : List (Text × BodyValue V) → List (Text × List V)
  listed [] = []
  listed ((k, v) ∷ items) = (k, values v) ∷ listed items

  get-load_body :
      (k : Text) (items : List (Text × BodyValue V)) (l : Loaded V)
      → get k (load_body items l).datalist ≡ last_of k (listed items) (get k l.datalist)
  get-load_body k [] l = refl
  get-load_body k ((j, v) ∷ items) l =
      rw (get-load_body k items (put_values j (values v) l), get-set k j (values v) l.datalist) refl

-- A key is in the query exactly if it has values there.
elem_text-rows_where :
    (j k : Text) (ks : List Text)
    → text_eq k j ≡ false
    → elem_text j (rows_where (λ i. not (text_eq k i)) ks) ≡ elem_text j ks
elem_text-rows_where j k [] other = refl
elem_text-rows_where j k (i ∷ ks) other = elim (Bool-cases (text_eq k i)) [
  | inl same ↦
      let e : k ≡ i = text_eq_sound k i same in
      let differs : text_eq j i ≡ false = elim (Bool-cases (text_eq j i)) [
        | inr f ↦ f
        | inl u ↦ absurd (let e' : j ≡ i = text_eq_sound j i u in cc (text_eq_refl k))
      ] in
      rw (same, differs) (elem_text-rows_where j k ks other)
  | inr differs ↦ rw differs (ap (λ b. text_eq j i || b) (elem_text-rows_where j k ks other))
]

keys_lem :
    (k : Text) (qp : List (Text × Text)) → elem_text k (keys_of qp) ≡ not (is_empty (getlist k qp))
keys_lem k [] = refl
keys_lem k ((j, v) ∷ rest) = elim (Bool-cases (text_eq k j)) [
  | inl same ↦ rw same refl
  | inr other ↦
      let back : text_eq j k ≡ false = elim (Bool-cases (text_eq j k)) [
        | inr f ↦ f
        | inl u ↦ absurd (let e : j ≡ k = text_eq_sound j k u in cc (text_eq_refl k))
      ] in
      rw other (elem_text-rows_where k j (keys_of rest) back ∙ keys_lem k rest)
]

module _ {V : Type 0} (of_text : Text → V) (decode : List ℕ → Outcome PayloadError Text)
    (parse_qs : Text → List (Text × List Text)) (loads : Text → Option (Json V)) where
  load_query-Heads :
      (ks : List Text) (qp : List (Text × Text)) (l : Loaded V)
      → Heads l
      → Heads (load_query of_text decode parse_qs loads ks qp l)
  load_query-Heads [] qp l heads = heads
  load_query-Heads (k ∷ ks) qp l heads =
      load_query-Heads ks qp (put_values k (map of_text (getlist k qp)) l)
        (put_values-Heads k (map of_text (getlist k qp)) l heads)

  get-load_query :
      (k : Text) (ks : List Text) (qp : List (Text × Text)) (l : Loaded V)
      → get k (load_query of_text decode parse_qs loads ks qp l).datalist
        ≡ (if elem_text k ks then some (map of_text (getlist k qp)) else get k l.datalist)
  get-load_query k [] qp l = refl
  get-load_query k (j ∷ ks) qp l =
      rw
        (
          get-load_query k ks qp (put_values j (map of_text (getlist j qp)) l),
          get-set k j (map of_text (getlist j qp)) l.datalist,
        )
        (elim (Bool-cases (text_eq k j)) [
          | inr f ↦ rw f refl
          | inl t ↦
              let e : k ≡ j = text_eq_sound k j t in
              rw (t, e)
                (elim (Bool-cases (elem_text j ks)) [ inl u ↦ rw u refl | inr u ↦ rw u refl ])
        ])

  -- What the query says of a key.
  abbrev pub query_values : Request → Text → Option (List V)
  query_values request k =
      let vs = getlist k request.query_params in if is_empty vs then none else some (map of_text vs)

  abbrev from_query : Request → Loaded V
  from_query request =
      load_query of_text decode parse_qs loads (keys_of request.query_params) request.query_params
        record { payload_data = []; datalist = [] }

  from_query_lem :
      (request : Request) (k : Text) → get k (from_query request).datalist ≡ query_values request k
  from_query_lem request k =
      rw
        (
          get-load_query k (keys_of request.query_params) request.query_params
              record { payload_data = []; datalist = [] },
          keys_lem k request.query_params,
        )
        (elim (Bool-cases (is_empty (getlist k request.query_params))) [
          | inl u ↦ rw u refl
          | inr u ↦ rw u refl
        ])

  from_query-Heads : (request : Request) → Heads (from_query request)
  from_query-Heads request =
      load_query-Heads (keys_of request.query_params) request.query_params
        record { payload_data = []; datalist = [] } (λ k. refl)

  -- A payload that is made has, for each key, the first of its values as the value, and as values
  -- those of the query where the request is a GET request; else those of the form in the body, or of
  -- the JSON object in it where there is no form, and those of the query only for a key that the body lacks.
  pub load_lem :
      (request : Request) (l : Loaded V)
      → load of_text decode parse_qs loads request ≡ ok l
      → Heads l
        × (has_body_method request.method ≡ false
            → (k : Text) → get k l.datalist ≡ query_values request k)
        × (has_body_method request.method ≡ true
            → (body : List (Text × BodyValue V)) × (parse_cached_form of_text decode parse_qs loads
                  request
                ≡ ok body)
              × ((k : Text)
                  → get k l.datalist
                    ≡ last_of k
                        (listed (or_json of_text decode parse_qs loads request body))
                        (query_values request k)))
  unfolding load
  load_lem request l h = elim (Bool-cases (has_body_method request.method)) [
    | inr plain ↦
        let same = ok_value refl (rw plain at h) in
        (
          subst Heads (sym same) (from_query-Heads request),
          (λ _ k. rw same (from_query_lem request k)),
          (λ e. absurd (cc plain)),
        )
    | inl bodied ↦
        let (body, parsed, k) =
          >>=-ok (parse_cached_form of_text decode parse_qs loads request) _ (rw bodied at h) in
        let same = ok_value refl k in
        (
          subst Heads (sym same) (
              load_body-Heads (or_json of_text decode parse_qs loads request body)
                (from_query request) (from_query-Heads request)),
          (λ e. absurd (cc bodied)),
          (λ _. (
            body,
            parsed,
            (λ k.
                rw
                  (
                    same,
                    get-load_body k (or_json of_text decode parse_qs loads request body)
                        (from_query request),
                    from_query_lem request k,
                  )
                  refl),
          )),
        )
  ]

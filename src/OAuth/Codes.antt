-- ===== src/OAuth/Codes.antt =====
-- The life of an authorization code.
use satoidc.Common.{
  ℕ, ◌+◌, ◌≡◌, ◌≤◌, ◌<◌, refl, Bool, true, ◌&&◌, none, some, ok, List, [], ◌∷◌, ◌++◌, ◌==◌, arith,
  Bool-cases, Option-cases, inl, inr, ap, ◌∙◌,
}
use satoidc.Common.Rows.{first_where, count_where, delete_first}
use satoidc.Common.Rows.Every.{first_where_sound}
use satoidc.Models.{Uuid, Instant, Token, seconds, OAuth2AuthorizationCode}
use satoidc.OAuth.{
  OAuthStore, Payload, new_code, is_code_of, has_code, save_authorization_code,
  query_authorization_code, delete_authorization_code,
}

found_append :
    (p : OAuth2AuthorizationCode → Bool) (row : OAuth2AuthorizationCode)
    (rows : List OAuth2AuthorizationCode)
    → first_where p rows ≡ none
    → p row ≡ true
    → first_where p (rows ++ row ∷ []) ≡ some row
found_append p row [] h k = rw k refl
found_append p row (x ∷ xs) h k = ground (arith, found_append p row xs)

is_code_of_refl : (code client_id : ℕ) → (code == code) && (client_id == client_id) ≡ true
is_code_of_refl code client_id = ground arith

no_code :
    (code client_id : Token) (rows : List OAuth2AuthorizationCode)
    → first_where (has_code code) rows ≡ none
    → first_where (is_code_of code client_id) rows ≡ none
no_code code client_id [] h = refl
no_code code client_id (x ∷ xs) h = ground (arith, no_code code client_id xs)

-- A code that is no row's, of whatever client, is saved; its client finds the saved row under it for 300 seconds, and
-- never after that.
pub query_authorization_code-save :
    (clock now : ℕ) (s : OAuthStore) (code client_id : Token) (payload : Payload) (user_id : Uuid)
    → first_where (has_code code) s.authorization_codes ≡ none
    → (c : OAuth2AuthorizationCode) × (s' : OAuthStore) × (save_authorization_code clock s code
          client_id payload user_id
        ≡ ok (c, s'))
      × (now ≤ seconds (clock + 300) → query_authorization_code now s' code client_id ≡ some c)
      × (seconds (clock + 300) < now → query_authorization_code now s' code client_id ≡ none)
unfolding query_authorization_code save_authorization_code
query_authorization_code-save clock now s code client_id payload user_id fresh =
    let row = new_code clock code client_id payload user_id in
    let found =
      found_append (is_code_of code client_id) row s.authorization_codes
        (no_code code client_id s.authorization_codes fresh) (is_code_of_refl code client_id) in
    (
      row,
      record s { authorization_codes = s.authorization_codes ++ row ∷ [] },
      rw fresh refl,
      (λ h. rw found (ground arith)),
      (λ h. rw found (ground arith)),
    )

counted_none :
    (p : OAuth2AuthorizationCode → Bool) (rows : List OAuth2AuthorizationCode)
    → count_where p rows ≡ 0
    → first_where p rows ≡ none
counted_none p [] h = refl
counted_none p (x ∷ xs) h = ground (arith, counted_none p xs)

deleted_none :
    (p : OAuth2AuthorizationCode → Bool) (rows : List OAuth2AuthorizationCode)
    → count_where p rows ≤ 1
    → first_where p (delete_first p rows) ≡ none
deleted_none p [] h = refl
deleted_none p (x ∷ xs) h = elim (Bool-cases (p x)) [
  | inl here ↦ rw here (counted_none p xs (ground arith))
  | inr there ↦ rw there (rw there (deleted_none p xs (ground arith)))
]

code_found :
    (now : Instant) (s : OAuthStore) (code client_id : Token) (c : OAuth2AuthorizationCode)
    → query_authorization_code now s code client_id ≡ some c
    → (c.code ≡ code) × (c.client_id ≡ client_id)
unfolding query_authorization_code
code_found now s code client_id c h =
    let k = first_where_sound (is_code_of code client_id) s.authorization_codes c in
    elim (Option-cases (first_where (is_code_of code client_id) s.authorization_codes)) [
      | inl missing ↦ absurd (ground arith)
      | inr (r, found) ↦
          let e : r ≡ c = ground arith in
          let q = k (found ∙ ap some e) in (ground arith, ground arith)
    ]

-- A code is exchanged once: where no two codes of the client are equal, a code that has been found and
-- then deleted is never found again.
pub query-delete_authorization_code :
    (now later : Instant) (s : OAuthStore) (code client_id : Token) (c : OAuth2AuthorizationCode)
    → count_where (is_code_of code client_id) s.authorization_codes ≤ 1
    → query_authorization_code now s code client_id ≡ some c
    → query_authorization_code later (delete_authorization_code s c) code client_id ≡ none
unfolding query_authorization_code delete_authorization_code
query-delete_authorization_code now later s code client_id c one h =
    let (same_code, same_client) = code_found now s code client_id c h in
    rw (same_code, same_client, deleted_none (is_code_of code client_id) s.authorization_codes one)
      refl

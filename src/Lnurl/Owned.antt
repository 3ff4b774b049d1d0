-- ===== src/Lnurl/Owned.antt =====
-- Accounts and the keys of wallets.
use satoidc.Common.{
  ◌≡◌, ◌≤◌, subst, none, some, List, [], ◌∷◌, ◌++◌, ◌==◌, ◌&&◌, Bool-cases, inl, inr, arith,
}
use satoidc.Common.Rows.{first_where, count_where, update_first}
use satoidc.Common.Rows.Counting.{count_where-append, count_where-first_none}
use satoidc.Models.{Uuid, Token, User}
use satoidc.Lnurl.{IdentityStore, has_pubkey, is_user, set_pubkey}

-- An account with this number that has the key is in the table.
abbrev pub Owns : Token → Uuid → List User → Type 0
Owns key id users = 1 ≤ count_where (λ u. u.id == id && has_pubkey key u) users

-- Every number and every key belongs to at most one account.
pub record IsKeyed (s : IdentityStore) : Type 0 where
  pub ids : (id : Uuid) → count_where (is_user id) s.users ≤ 1
  pub keys : (key : Token) → count_where (has_pubkey key) s.users ≤ 1

pub Owns-found :
    (key : Token) (u : User) (users : List User)
    → first_where (has_pubkey key) users ≡ some u
    → Owns key u.id users
Owns-found key u [] h = cc
Owns-found key u (x ∷ xs) h = ground (arith, Owns-found key u xs)

pub Owns-linked :
    (key : Token) (id : Uuid) (u : User) (users : List User)
    → first_where (is_user id) users ≡ some u
    → Owns key id (update_first (is_user id) (set_pubkey key) users)
Owns-linked key id u [] h = cc
Owns-linked key id u (x ∷ xs) h = ground (arith, Owns-linked key id u xs)

pub append_id :
    (n : Uuid) (row : User) (users : List User)
    → first_where (is_user row.id) users ≡ none
    → count_where (is_user n) users ≤ 1
    → count_where (is_user n) (users ++ row ∷ []) ≤ 1
append_id n row users fresh h = elim (Bool-cases (row.id == n)) [
  | inl same ↦
      let e : row.id ≡ n = ground arith in
      subst (λ m. count_where (is_user m) (users ++ row ∷ []) ≤ 1) e
        (rw count_where-append
          (ground (arith, count_where-first_none (is_user row.id) users fresh)))
  | inr differs ↦ rw count_where-append (ground arith)
]

pub append_key :
    (k key : Token) (row : User) (users : List User)
    → row.lnurl_pubkey ≡ some key
    → first_where (has_pubkey key) users ≡ none
    → count_where (has_pubkey k) users ≤ 1
    → count_where (has_pubkey k) (users ++ row ∷ []) ≤ 1
append_key k key row users here fresh h = elim (Bool-cases (key == k)) [
  | inl same ↦
      let e : key ≡ k = ground arith in
      subst (λ m. count_where (has_pubkey m) (users ++ row ∷ []) ≤ 1) e
        (rw count_where-append
          (ground (arith, count_where-first_none (has_pubkey key) users fresh)))
  | inr differs ↦ rw (count_where-append, here) (ground arith)
]

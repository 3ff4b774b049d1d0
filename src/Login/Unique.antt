-- ===== src/Login/Unique.antt =====
-- Logins and addresses that belong to one account.
use satoidc.Common.{
  ◌≡◌, ◌≤◌, refl, subst, Bool, true, false, ◌||◌, Option, none, some, List, [], ◌∷◌, ◌++◌,
  if◌then◌else◌, Bool-cases, inl, inr, arith,
}
use satoidc.Common.Rows.{first_where, count_where}
use satoidc.Common.Rows.Counting.{count_where-append, count_where-first_none, count_where_mono}
use satoidc.Common.Texts.{Text, text_eq, text_eq_sound, text_eq_refl}
use satoidc.Models.{User}
use satoidc.Login.{optional_text_eq}

-- Every login and every address belongs to at most one account.
pub record IsUnique (users : List User) : Type 0 where
  pub logins : (l : Text) → count_where (λ u. optional_text_eq l u.login) users ≤ 1
  pub emails : (e : Text) → count_where (λ u. optional_text_eq e u.email) users ≤ 1

pub append_text :
    (column : User → Option Text) (t v : Text) (row : User) (users : List User)
    → column row ≡ some v
    → count_where (λ u. optional_text_eq v (column u)) users ≡ 0
    → count_where (λ u. optional_text_eq t (column u)) users ≤ 1
    → count_where (λ u. optional_text_eq t (column u)) (users ++ row ∷ []) ≤ 1
append_text column t v row users here fresh h = elim (Bool-cases (text_eq v t)) [
  | inl same ↦
      subst (λ t. count_where (λ u. optional_text_eq t (column u)) (users ++ row ∷ []) ≤ 1)
        (text_eq_sound v t same)
        (rw (count_where-append, here, fresh, text_eq_refl v) (omega arith))
  | inr differs ↦ rw (count_where-append, here, differs) (omega (arith, h))
]

pub untaken :
    (p q : User → Bool) (users : List User)
    → ((u : User) → p u ≡ true → q u ≡ true)
    → first_where q users ≡ none
    → count_where p users ≡ 0
untaken p q users implies free =
    omega (arith, count_where_mono p q users implies, count_where-first_none q users free)

pub or_true : (a : Bool) → a || true ≡ true
or_true true = refl
or_true false = refl

pub first_where_append :
    (p : User → Bool) (row : User) (users : List User)
    → first_where p users ≡ none
    → first_where p (users ++ row ∷ []) ≡ (if p row then some row else none)
first_where_append p row [] h = refl
first_where_append p row (x ∷ xs) h = ground (arith, first_where_append p row xs)

-- ===== src/Identity/Kept.antt =====
-- The four unique columns of the accounts, through the changes that the operations make.
use satoidc.Common.{
  ◌≡◌, ◌≤◌, refl, subst, Bool, true, none, some, List, [], ◌∷◌, ◌++◌, Bool-cases, inl, inr, arith,
}
use satoidc.Common.Rows.{first_where, count_where, update_first}
use satoidc.Common.Rows.Counting.{count_where-append, count_where-update_first_le}
use satoidc.Common.Texts.{Text, text_eq, text_eq_sound}
use satoidc.Models.{Uuid, Token, User}
use satoidc.Lnurl.{has_pubkey, is_user}
use satoidc.Lnurl.Owned.{append_id}
use satoidc.Login.{optional_text_eq, is_taken}
use satoidc.Login.Unique.{append_text, untaken, or_true}
use satoidc.Profile.{set_email, has_email}

-- Numbers, wallet keys, logins and addresses each belong to at most one account.
pub record IsSound (users : List User) : Type 0 where
  pub ids : (id : Uuid) → count_where (is_user id) users ≤ 1
  pub keys : (key : Token) → count_where (has_pubkey key) users ≤ 1
  pub logins : (l : Text) → count_where (λ u. optional_text_eq l u.login) users ≤ 1
  pub emails : (e : Text) → count_where (λ u. optional_text_eq e u.email) users ≤ 1

-- A change that gives an account no number, key, login or address that it did not have.
pub record IsTame (change : User → User) : Type 0 where
  pub id : (u : User) → (change u).id ≡ u.id
  pub key : (k : Token) (u : User) → has_pubkey k (change u) ≡ true → has_pubkey k u ≡ true
  pub login : (u : User) → (change u).login ≡ u.login
  pub email : (u : User) → (change u).email ≡ u.email

pub update-IsSound :
    (change : User → User) (p : User → Bool) (users : List User)
    → IsTame change
    → IsSound users
    → IsSound (update_first p change users)
update-IsSound change p users tame sound = record {
  ids = λ n. omega (
    arith,
    sound.ids n,
    count_where-update_first_le (is_user n) p change users (λ x e k. rw (tame.id x) at k),
  );
  keys = λ n. omega (
    arith,
    sound.keys n,
    count_where-update_first_le (has_pubkey n) p change users (λ x e k. tame.key n x k),
  );
  logins = λ l. omega (
    arith,
    sound.logins l,
    count_where-update_first_le (λ u. optional_text_eq l u.login) p change users
        (λ x e k. rw (tame.login x) at k),
  );
  emails = λ l. omega (
    arith,
    sound.emails l,
    count_where-update_first_le (λ u. optional_text_eq l u.email) p change users
        (λ x e k. rw (tame.email x) at k),
  );
}

-- The count of an address after it has been given to the account of a number: that account, and others
-- that had it.
email_le :
    (value : Text) (id : Uuid) (users : List User)
    → first_where (has_email value id) users ≡ none
    → count_where (λ u. optional_text_eq value u.email) users ≤ count_where (is_user id) users
email_le value id [] free = omega arith
email_le value id (x ∷ xs) free = ground (arith, email_le value id xs)

set_email_le :
    (value : Text) (id : Uuid) (users : List User)
    → first_where (has_email value id) users ≡ none
    → count_where
        (λ u. optional_text_eq value u.email)
        (update_first (is_user id) (set_email value) users)
      ≤ count_where (is_user id) users
set_email_le value id [] free = omega arith
set_email_le value id (x ∷ xs) free = ground (arith, email_le value id xs, set_email_le value id xs)

pub readdressed-IsSound :
    (value : Text) (id : Uuid) (users : List User)
    → first_where (has_email value id) users ≡ none
    → IsSound users
    → IsSound (update_first (is_user id) (set_email value) users)
readdressed-IsSound value id users free sound = record {
  ids = λ n. omega (
    arith,
    sound.ids n,
    count_where-update_first_le (is_user n) (is_user id) (set_email value) users (λ x e k. k),
  );
  keys = λ n. omega (
    arith,
    sound.keys n,
    count_where-update_first_le (has_pubkey n) (is_user id) (set_email value) users (λ x e k. k),
  );
  logins = λ l. omega (
    arith,
    sound.logins l,
    count_where-update_first_le (λ u. optional_text_eq l u.login) (is_user id) (set_email value)
        users (λ x e k. k),
  );
  emails = λ e. elim (Bool-cases (text_eq value e)) [
    | inl same ↦
        subst
          (λ t.
            count_where (λ u. optional_text_eq t u.email)
              (update_first (is_user id) (set_email value) users)
            ≤ 1)
          (text_eq_sound value e same)
          (omega (arith, set_email_le value id users free, sound.ids id))
    | inr differs ↦ omega (
      arith,
      sound.emails e,
      count_where-update_first_le (λ u. optional_text_eq e u.email) (is_user id) (set_email value)
          users (λ x f k. absurd (ground arith)),
    )
  ];
}

-- A new account with a login and an address that are free, and with no wallet.
pub added-IsSound :
    (row : User) (l e : Text) (users : List User)
    → first_where (is_user row.id) users ≡ none
    → row.lnurl_pubkey ≡ none
    → row.login ≡ some l
    → row.email ≡ some e
    → first_where (is_taken l e) users ≡ none
    → IsSound users
    → IsSound (users ++ row ∷ [])
added-IsSound row l e users fresh no_key has_login has_address free sound = record {
  ids = λ n. append_id n row users fresh (sound.ids n);
  keys = λ k. rw (count_where-append, no_key) (omega (arith, sound.keys k));
  logins = λ t.
      append_text (λ u. u.login) t l row users has_login
        (untaken (λ u. optional_text_eq l u.login) (is_taken l e) users (λ u h. rw h refl) free)
        (sound.logins t);
  emails = λ t.
      append_text (λ u. u.email) t e row users has_address
        (untaken (λ u. optional_text_eq e u.email) (is_taken l e) users (λ u h. rw h (or_true _))
          free)
        (sound.emails t);
}

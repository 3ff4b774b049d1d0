-- ===== src/Profile/Changes.antt =====
-- What a handler of the profile has done when it answers.
use satoidc.Common.{
  ◌≡◌, ◌≢◌, refl, sym, ap, Bool, true, false, not, Option, none, some, List, ok, ok_value, ◌∙◌,
  if◌then◌else◌, is_some, Option-cases, inl, inr, ◌⊎◌, arith,
}
use satoidc.Common.Rows.{first_where, update_first}
use satoidc.Common.Texts.{Text, strip, lower}
use satoidc.Models.{Uuid, User}
use satoidc.Lnurl.{is_user}
use satoidc.Validators.{is_valid_nickname}
use satoidc.Profile.{
  Notice, updated, invalid_nickname, invalid_email, email_in_use, password_required, warn, write,
  set_nickname, set_email, unset_pubkey, text_or_empty, save_nickname, has_email, save_email,
  has_password, unlink,
}

-- The row of the copy has been changed, and it was there.
pub record Written (change : User → User) (user user' : User) (users users' : List User)
    : Type 0 where
  pub row : User
  pub found : first_where (is_user user.id) users ≡ some row
  pub copy : user' ≡ change user
  pub table : users' ≡ update_first (is_user user.id) change users

-- Nothing has changed, and the notice says why, or the row has been changed as `change` does.
abbrev pub Done : Type 0 → (User → User) → Notice → User → User → List User → List User → Type 0
Done Checked change notice user user' users users' =
    ((users' ≡ users) × (notice ≢ updated)) ⊎ (Checked × Written change user user' users users')

pub write_lem :
    (change : User → User) (user : User) (users : List User) (notice : Notice) (user' : User)
    (users' : List User)
    → write change user users ≡ ok (notice, user', users')
    → Written change user user' users users'
write_lem change user users notice user' users' h =
    elim (Option-cases (first_where (is_user user.id) users)) [
      | inl missing ↦ absurd (ground arith)
      | inr (row, found) ↦ record {
        row = row;
        found = found;
        copy = ground arith;
        table = ground arith;
      }
    ]

pub warned :
    {change : User → User} (Checked : Type 0) (why notice : Notice) (user user' : User)
    (users users' : List User)
    → why ≢ updated
    → warn why user users ≡ ok (notice, user', users')
    → Done Checked change notice user user' users users'
warned Checked why notice user user' users users' bad h =
    let value = ok_value refl h in
    inl (ap (λ p. p.2) value, λ e. bad (sym (ap (λ p. p.0) value) ∙ e))

nickname_tests :
    (value : Text) (user : User) (users : List User) (notice : Notice) (user' : User)
    (users' : List User) (valid : Bool)
    → is_valid_nickname value ≡ valid
    → (if not valid
        then warn invalid_nickname user users
        else write (set_nickname value) user users)
      ≡ ok (notice, user', users')
    → Done (is_valid_nickname value ≡ true) (set_nickname value) notice user user' users users'
nickname_tests value user users notice user' users' false e h =
    warned _ invalid_nickname notice user user' users users' (λ k. cc) h
nickname_tests value user users notice user' users' true e h =
    inr (e, write_lem (set_nickname value) user users notice user' users' h)

pub save_nickname_lem :
    (input : Option Text) (user : User) (users : List User) (notice : Notice) (user' : User)
    (users' : List User)
    → save_nickname input user users ≡ ok (notice, user', users')
    → Done
        (is_valid_nickname (strip (text_or_empty input)) ≡ true)
        (set_nickname (strip (text_or_empty input)))
        notice
        user
        user'
        users
        users'
unfolding save_nickname
save_nickname_lem input user users notice user' users' h =
    nickname_tests (strip (text_or_empty input)) user users notice user' users' _ refl h

-- What a new address has passed.
pub record IsFree (is_valid_email : Text → Bool) (value : Text) (id : Uuid) (users : List User)
    : Type 0 where
  pub valid : is_valid_email value ≡ true
  pub free : first_where (has_email value id) users ≡ none

email_tests :
    (is_valid_email : Text → Bool) (value : Text) (user : User) (users : List User)
    (notice : Notice) (user' : User) (users' : List User) (valid : Bool) (other : Option User)
    → is_valid_email value ≡ valid
    → first_where (has_email value user.id) users ≡ other
    → (if not valid
        then warn invalid_email user users
        else if is_some other
        then warn email_in_use user users
        else write (set_email value) user users)
      ≡ ok (notice, user', users')
    → Done
        (IsFree is_valid_email value user.id users)
        (set_email value)
        notice
        user
        user'
        users
        users'
email_tests ok_email value user users notice user' users' false o e f h =
    warned _ invalid_email notice user user' users users' (λ k. cc) h
email_tests ok_email value user users notice user' users' true (some u) e f h =
    warned _ email_in_use notice user user' users users' (λ k. cc) h
email_tests ok_email value user users notice user' users' true none e f h =
    inr
      (record { valid = e; free = f }, write_lem (set_email value) user users notice user' users' h)

pub save_email_lem :
    (is_valid_email : Text → Bool) (input : Option Text) (user : User) (users : List User)
    (notice : Notice) (user' : User) (users' : List User)
    → save_email is_valid_email input user users ≡ ok (notice, user', users')
    → Done
        (IsFree is_valid_email (lower (strip (text_or_empty input))) user.id users)
        (set_email (lower (strip (text_or_empty input))))
        notice
        user
        user'
        users
        users'
unfolding save_email
save_email_lem ok_email input user users notice user' users' h =
    email_tests ok_email (lower (strip (text_or_empty input))) user users notice user' users' _ _
      refl refl h

unlink_tests :
    (user : User) (users : List User) (notice : Notice) (user' : User) (users' : List User)
    (has : Bool)
    → has_password user ≡ has
    → (if not has then warn password_required user users else write unset_pubkey user users)
      ≡ ok (notice, user', users')
    → Done (has_password user ≡ true) unset_pubkey notice user user' users users'
unlink_tests user users notice user' users' false e h =
    warned _ password_required notice user user' users users' (λ k. cc) h
unlink_tests user users notice user' users' true e h =
    inr (e, write_lem unset_pubkey user users notice user' users' h)

pub unlink_lem :
    (user : User) (users : List User) (notice : Notice) (user' : User) (users' : List User)
    → unlink user users ≡ ok (notice, user', users')
    → Done (has_password user ≡ true) unset_pubkey notice user user' users users'
unfolding unlink
unlink_lem user users notice user' users' h = unlink_tests user users notice user' users' _ refl h

-- ===== src/Profile/Password.antt =====
-- What the handler of a new password has done when it answers.
use satoidc.Common.{
  ◌≡◌, refl, Bool, true, false, not, Option, List, Outcome, ok, raised, ◌>>=◌, if◌then◌else◌, inl,
  inr, ◌⊎◌,
}
use satoidc.Common.Texts.{Text}
use satoidc.Models.{Token, User}
use satoidc.Validators.{is_valid_password}
use satoidc.Profile.{
  Notice, incorrect_password, weak_password, password_mismatch, ProfileError, warn, write,
  set_password, text_or_empty, has_password, new_password_save, save_password,
}
use satoidc.Profile.Changes.{Done, write_lem, warned}

module _ (verify_password : Text → Option Token → Outcome ProfileError Bool)
    (hash_password : Text → Token) where
  -- What a new password has passed.
  pub record IsAllowed (current new : Option Text) (user : User) : Type 0 where
    pub known :
        (has_password user ≡ false)
        ⊎ (verify_password (text_or_empty current) user.password_hash ≡ ok true)
    pub strong : is_valid_password (text_or_empty new) ≡ true

  password_tests :
      (current new confirm : Option Text) (user : User) (users : List User) (notice : Notice)
      (user' : User) (users' : List User) (strong same : Bool)
      → (has_password user ≡ false)
        ⊎ (verify_password (text_or_empty current) user.password_hash ≡ ok true)
      → is_valid_password (text_or_empty new) ≡ strong
      → (if not strong
          then warn weak_password user users
          else if not same
          then warn password_mismatch user users
          else write (set_password (hash_password (text_or_empty new))) user users)
        ≡ ok (notice, user', users')
      → Done
          (IsAllowed current new user)
          (set_password (hash_password (text_or_empty new)))
          notice
          user
          user'
          users
          users'
  password_tests current new confirm user users notice user' users' false m k e h =
      warned _ weak_password notice user user' users users' (λ k. cc) h
  password_tests current new confirm user users notice user' users' true false k e h =
      warned _ password_mismatch notice user user' users users' (λ k. cc) h
  password_tests current new confirm user users notice user' users' true true k e h =
      inr (record { known = k; strong = e }, write_lem _ user users notice user' users' h)

  known_tests :
      (current new confirm : Option Text) (user : User) (users : List User) (notice : Notice)
      (user' : User) (users' : List User) (has : Bool) (o : Outcome ProfileError Bool)
      → has_password user ≡ has
      → verify_password (text_or_empty current) user.password_hash ≡ o
      → ((if has then o else ok true) >>= λ good.
          if good
          then new_password_save verify_password hash_password new confirm user users
          else warn incorrect_password user users)
        ≡ ok (notice, user', users')
      → Done
          (IsAllowed current new user)
          (set_password (hash_password (text_or_empty new)))
          notice
          user
          user'
          users
          users'
  known_tests current new confirm user users notice user' users' false o e f h =
      password_tests current new confirm user users notice user' users' _ _ (inl e) refl h
  known_tests current new confirm user users notice user' users' true (raised x) e f h = cc
  known_tests current new confirm user users notice user' users' true (ok false) e f h =
      warned _ incorrect_password notice user user' users users' (λ k. cc) h
  known_tests current new confirm user users notice user' users' true (ok true) e f h =
      password_tests current new confirm user users notice user' users' _ _ (inr f) refl h

  pub save_password_lem :
      (current new confirm : Option Text) (user : User) (users : List User) (notice : Notice)
      (user' : User) (users' : List User)
      → save_password verify_password hash_password current new confirm user users
        ≡ ok (notice, user', users')
      → Done
          (IsAllowed current new user)
          (set_password (hash_password (text_or_empty new)))
          notice
          user
          user'
          users
          users'
  unfolding save_password
  save_password_lem current new confirm user users notice user' users' h =
      known_tests current new confirm user users notice user' users' _ _ refl refl h

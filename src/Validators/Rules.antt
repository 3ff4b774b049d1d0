-- ===== src/Validators/Rules.antt =====
-- What the three patterns accept, in the words of the messages.
use satoidc.Common.{
  ℕ, zero, suc, ◌≤◌, ◌≡◌, refl, Bool, true, false, ◌&&◌, ◌||◌, [], ◌∷◌, ◌++◌, arith, ◌↔◌, sym, ◌∙◌,
}
use satoidc.Common.Texts.{Text, is_empty}
use satoidc.Common.Rows.{All, length}
use satoidc.Validators.{
  accepts_times, sees, is_dot, is_lower_digit, is_lower_letter, is_upper_letter, is_digit,
  is_special, is_valid_login, is_valid_nickname, is_valid_password, validate_registration_form,
  unless, login, nickname, password, email,
}

-- A counted class at the end of a pattern: the text has as many characters, all of the class.
abbrev pub Counted : (ℕ → Bool) → ℕ → ℕ → Text → Type 0
Counted p m n s = (m ≤ length s) × (length s ≤ n) × All (λ c. p c ≡ true) s

pub accepts_times-Counted :
    (p : ℕ → Bool) (m n : ℕ) (s : Text) → accepts_times p m n is_empty s ≡ true → Counted p m n s
accepts_times-Counted p zero n [] h = (omega arith, omega arith, tt)
accepts_times-Counted p (suc m) n [] h = cc
accepts_times-Counted p zero zero (c ∷ s) h = cc
accepts_times-Counted p zero (suc n) (c ∷ s) h = ground (arith, accepts_times-Counted p zero n s)
accepts_times-Counted p (suc m) zero (c ∷ s) h = cc
accepts_times-Counted p (suc m) (suc n) (c ∷ s) h = ground (arith, accepts_times-Counted p m n s)

Counted-accepts_times :
    (p : ℕ → Bool) (m n : ℕ) (s : Text) → Counted p m n s → accepts_times p m n is_empty s ≡ true
Counted-accepts_times p zero n [] h = refl
Counted-accepts_times p (suc m) n [] h = absurd (omega arith)
Counted-accepts_times p zero zero (c ∷ s) h = absurd (omega arith)
Counted-accepts_times p zero (suc n) (c ∷ s) h =
    ground (arith, Counted-accepts_times p zero n s (omega arith, omega arith, h.2.1))
Counted-accepts_times p (suc m) zero (c ∷ s) h = absurd (omega arith)
Counted-accepts_times p (suc m) (suc n) (c ∷ s) h =
    ground (arith, Counted-accepts_times p m n s (omega arith, omega arith, h.2.1))

-- A login is accepted exactly when it has 6 to 30 characters, all of them lower-case letters and
-- digits.
pub is_valid_login-Counted : (v : Text) → (is_valid_login v ≡ true) ↔ Counted is_lower_digit 6 30 v
unfolding is_valid_login
is_valid_login-Counted v =
    (accepts_times-Counted is_lower_digit 6 30 v, Counted-accepts_times is_lower_digit 6 30 v)

-- Some character of the text is of the class.
abbrev pub has_char : (ℕ → Bool) → Text → Bool
has_char p [] = false
has_char p (c ∷ s) = p c || has_char p s

-- On a text of one line, a lookahead looks at every character.
sees-eq-has_char :
    (p : ℕ → Bool) (s : Text) → All (λ c. is_dot c ≡ true) s → sees p s ≡ has_char p s
sees-eq-has_char p [] h = refl
sees-eq-has_char p (c ∷ s) h = rw (h.0, sees-eq-has_char p s h.1)

-- A strong password: one line of 8 to 128 characters with a lower-case letter, an upper-case letter, a
-- digit and a character that is neither letter nor digit.
pub record IsStrong (v : Text) : Type 0 where
  pub line : Counted is_dot 8 128 v
  pub lower : has_char is_lower_letter v ≡ true
  pub upper : has_char is_upper_letter v ≡ true
  pub digit : has_char is_digit v ≡ true
  pub special : has_char is_special v ≡ true

pub and_true : (a b : Bool) → a && b ≡ true → (a ≡ true) × (b ≡ true)
and_true true b h = (refl, h)
and_true false b h = cc

accepted-IsStrong :
    (v : Text)
    → sees is_lower_letter v
        && (sees is_upper_letter v
            && (sees is_digit v && (sees is_special v && accepts_times is_dot 8 128 is_empty v)))
      ≡ true
    → IsStrong v
accepted-IsStrong v h =
    let (low, h1) = and_true _ _ h in
    let (up, h2) = and_true _ _ h1 in
    let (dig, h3) = and_true _ _ h2 in
    let (spec, h4) = and_true _ _ h3 in
    let line = accepts_times-Counted is_dot 8 128 v h4 in
    record {
      line = line;
      lower = sym (sees-eq-has_char is_lower_letter v line.2) ∙ low;
      upper = sym (sees-eq-has_char is_upper_letter v line.2) ∙ up;
      digit = sym (sees-eq-has_char is_digit v line.2) ∙ dig;
      special = sym (sees-eq-has_char is_special v line.2) ∙ spec;
    }

-- A password is accepted exactly when it is strong.
pub is_valid_password-IsStrong : (v : Text) → (is_valid_password v ≡ true) ↔ IsStrong v
unfolding is_valid_password
is_valid_password-IsStrong v = (
  accepted-IsStrong v,
  λ h.
      rw
        (
          sees-eq-has_char is_lower_letter v h.line.2,
          sees-eq-has_char is_upper_letter v h.line.2,
          sees-eq-has_char is_digit v h.line.2,
          sees-eq-has_char is_special v h.line.2,
          h.lower,
          h.upper,
          h.digit,
          h.special,
        )
        (Counted-accepts_times is_dot 8 128 v h.line),
)

-- No field is reported exactly when every test holds.
no_error :
    (a b c d : Bool)
    → unless a login ++ unless b nickname ++ unless c password ++ unless d email ≡ []
    → (a ≡ true) × (b ≡ true) × (c ≡ true) × (d ≡ true)
no_error true true true true h = (refl, refl, refl, refl)
no_error true true true false h = cc
no_error true true false d h = cc
no_error true false c d h = cc
no_error false b c d h = cc

module _ (is_valid_email : Text → Bool) where
  -- The registration form has no validation error exactly when its login has 6 to 30 lower-case letters
  -- and digits, its password is strong, and its nickname and its address are accepted.
  pub validate_registration_form-accepts :
      (l n p e : Text)
      → (validate_registration_form is_valid_email l n p e ≡ []) ↔ (
          Counted is_lower_digit 6 30 l
          × (is_valid_nickname n ≡ true)
          × IsStrong p
          × (is_valid_email e ≡ true))
  unfolding validate_registration_form
  validate_registration_form-accepts l n p e = (
    λ h.
        let (hl, hn, hp, he) = no_error _ _ _ _ h in
        ((is_valid_login-Counted l).0 hl, hn, (is_valid_password-IsStrong p).0 hp, he),
    λ (hl, hn, hp, he).
        rw ((is_valid_login-Counted l).1 hl, hn, (is_valid_password-IsStrong p).1 hp, he) refl,
  )

-- ===== src/Validators/Nickname.antt =====
-- What the pattern for nicknames accepts.
use satoidc.Common.{
  ℕ, zero, suc, ◌+◌, ◌≡◌, refl, Bool, true, false, ◌&&◌, ◌||◌, [], ◌∷◌, arith, inl, inr, ◌⊎◌,
  Bool-cases,
}
use satoidc.Common.Texts.{Text, is_empty}
use satoidc.Validators.{
  accepts_times, accepts_then, is_alnum, is_nickname_char, is_valid_nickname, times, end, optional,
}
use satoidc.Validators.Rules.{Counted, and_true}

empty_Counted : (u : Text) → is_empty u ≡ true → Counted is_nickname_char 0 0 u
empty_Counted [] e = (omega arith, omega arith, tt)
empty_Counted (c ∷ s) e = cc

-- What `next` accepts has between `a` and `b` characters, all of the class `q`.
accepts_times-next :
    (p q : ℕ → Bool) (a b m n : ℕ) (next : Text → Bool) (s : Text)
    → ((t : Text) → next t ≡ true → Counted q a b t)
    → ((c : ℕ) → p c ≡ true → q c ≡ true)
    → accepts_times p m n next s ≡ true
    → Counted q (m + a) (n + b) s
accepts_times-next p q a b zero n next [] hn hp h =
    let (x, y, z) = hn [] h in (omega arith, omega arith, z)
accepts_times-next p q a b (suc m) n next [] hn hp h = cc
accepts_times-next p q a b zero zero next (c ∷ s) hn hp h =
    let (x, y, z) = hn (c ∷ s) h in (omega arith, omega arith, z)
accepts_times-next p q a b zero (suc n) next (c ∷ s) hn hp h = elim (Bool-cases (next (c ∷ s))) [
  | inl now ↦ let (x, y, z) = hn (c ∷ s) now in (omega arith, omega arith, z)
  | inr later ↦
      let (pc, rest) = and_true (p c) (accepts_times p zero n next s) (ground arith) in
      let (x, y, z) = accepts_times-next p q a b zero n next s hn hp rest in
      (omega arith, omega arith, (hp c pc, z))
]
accepts_times-next p q a b (suc m) zero next (c ∷ s) hn hp h = cc
accepts_times-next p q a b (suc m) (suc n) next (c ∷ s) hn hp h =
    let (pc, rest) = and_true (p c) (accepts_times p m n next s) h in
    let (x, y, z) = accepts_times-next p q a b m n next s hn hp rest in
    (omega arith, omega arith, (hp c pc, z))

-- Letters and digits are nickname characters.
alnum_nickname : (c : ℕ) → is_alnum c ≡ true → is_nickname_char c ≡ true
alnum_nickname c h = rw h

nickname_tail :
    (s : Text)
    → accepts_times is_nickname_char 1 78 (accepts_times is_alnum 1 1 is_empty) s ≡ true
    → Counted is_nickname_char 2 79 s
nickname_tail s h =
    accepts_times-next is_nickname_char is_nickname_char 1 1 1 78
      (accepts_times is_alnum 1 1 is_empty) s
      (λ t k.
        accepts_times-next is_alnum is_nickname_char 0 0 1 1 is_empty t (λ u e. empty_Counted u e)
          alnum_nickname k)
      (λ c e. e) h

-- An empty or accepted tail, by cases on the tail.
optional_tail :
    (s : Text)
    → accepts_times is_alnum 0 0
        (accepts_then
          (optional (times is_nickname_char 1 78 (times is_alnum 1 1 end)) end)
          is_empty)
        s
      ≡ true
    → (s ≡ []) ⊎ Counted is_nickname_char 2 79 s
optional_tail [] h = inl refl
optional_tail (c ∷ s) h =
    elim (Bool-cases
      (accepts_times is_nickname_char 1 78 (accepts_times is_alnum 1 1 is_empty) (c ∷ s))) [
        | inl e ↦ inr (nickname_tail (c ∷ s) e)
        | inr e ↦ absurd (cc)
      ]

-- An accepted nickname that is not empty has one character or 3 to 80; the first is a letter or a digit,
-- and the others are letters, digits, dots, underscores and hyphens.
pub is_valid_nickname-Counted :
    (c : ℕ) (s : Text)
    → is_valid_nickname (c ∷ s) ≡ true
    → (is_alnum c ≡ true) × ((s ≡ []) ⊎ Counted is_nickname_char 2 79 s)
unfolding is_valid_nickname
is_valid_nickname-Counted c s h =
    let (alnum, rest) = and_true _ _ h in (alnum, optional_tail s rest)

and_false : (a b : Bool) → a && (b && false || false) ≡ false
and_false true true = refl
and_false true false = refl
and_false false b = refl

-- No nickname of two characters is accepted.
pub two_char_nickname : (a b : ℕ) → is_valid_nickname (a ∷ b ∷ []) ≡ false
unfolding is_valid_nickname
two_char_nickname a b = and_false _ _

-- ===== src/Common/Raising.antt =====
-- A call that returns or raises. What the call has written to the database before it raises is
-- not committed, so only a returned value carries a new database.
use mathlib.Core.Path.{◌≡◌, refl, sym, ap}
use mathlib.Core.Logic.{◌⊎◌, inl, inr}

pub data Outcome {ℓ} (E A : Type ℓ) : Type ℓ where
  raised : (exception : E) → Outcome E A
  ok : (value : A) → Outcome E A

module _ {ℓ} {E A B : Type ℓ} where
  infixl 5 ◌>>=◌
  -- The rest of a body, after a call in it.
  abbrev pub ◌>>=◌ : Outcome E A → (A → Outcome E B) → Outcome E B
  raised exception >>= rest = raised exception
  ok value >>= rest = rest value

  -- A body that returns has had its first call return.
  pub >>=-ok :
      (call : Outcome E A) (rest : A → Outcome E B) {result : B}
      → (call >>= rest) ≡ ok result
      → (value : A) × (call ≡ ok value) × (rest value ≡ ok result)
  >>=-ok (raised exception) rest h = cc
  >>=-ok (ok value) rest h = (value, refl, h)

pub Outcome-cases {ℓ} :
    {E A : Type ℓ} (call : Outcome E A) → ((e : E) × (call ≡ raised e)) ⊎ ((a : A) × (call ≡ ok a))
Outcome-cases (raised e) = inl (e, refl)
Outcome-cases (ok a) = inr (a, refl)

-- The parts of a returned pair.
pub ok_parts {ℓ} :
    {E A B : Type ℓ} {m : Outcome E (A × B)} {a c : A} {b d : B}
    → m ≡ ok (a, b)
    → m ≡ ok (c, d)
    → (c ≡ a) × (d ≡ b)
ok_parts {A = A} {B = B} {a = a} {c = c} {b = b} {d = d} h k =
    let p : A × B = (a, b) in
    let q : A × B = (c, d) in let e : p ≡ q = cc in (sym (ap (λ p. p.0) e), sym (ap (λ p. p.1) e))

pub ok_value {ℓ} : {E A : Type ℓ} {m : Outcome E A} {a b : A} → m ≡ ok a → m ≡ ok b → b ≡ a
ok_value h k = cc

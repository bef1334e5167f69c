-- ===== src/Common/Results.antt =====
-- Results of code that raises: a value, or the exception as a value.
use mathlib.Core.Path.{◌≡◌, refl, sym, ap}
use mathlib.Core.Logic.{◌⊎◌, inl, inr}
use mathlib.Core.Bool.{Bool, true, false}

pub data Result {ℓ κ} (E : Type ℓ) (A : Type κ) : Type (ℓ ⊔ κ) where
  ok : A → Result E A
  err : E → Result E A

-- `if bad: raise x`
abbrev pub raise_if {ℓ} : {E : Type ℓ} → Bool → E → Result E (Unit {0})
raise_if false x = ok tt
raise_if true x = err x

module _ {ℓ κ} {E : Type ℓ} {A : Type κ} where
  abbrev err_or : E → Result E A → E
  err_or d (err x) = x
  err_or d (ok a) = d

  abbrev ok_or : A → Result E A → A
  ok_or d (err x) = d
  ok_or d (ok a) = a

  pub err-injective : {x y : E} → ◌≡◌ {A = Result E A} (err x) (err y) → x ≡ y
  err-injective {x} same = ap (err_or x) same

  pub ok-injective : {a b : A} → ◌≡◌ {A = Result E A} (ok a) (ok b) → a ≡ b
  ok-injective {a} same = ap (ok_or a) same

  -- To split on a computed result and keep the equation.
  pub Result-cases : (r : Result E A) → ((a : A) × (r ≡ ok a)) ⊎ ((x : E) × (r ≡ err x))
  Result-cases (err x) = inr (x, refl)
  Result-cases (ok a) = inl (a, refl)

infixl 5 ◌>>=◌ ◌>>◌
abbrev pub ◌>>=◌ {ℓ κ μ} :
    {E : Type ℓ} {A : Type κ} {B : Type μ} → Result E A → (A → Result E B) → Result E B
err x >>= next = err x
ok a >>= next = next a

-- A step that gives no value.
abbrev pub ◌>>◌ {ℓ κ} : {E : Type ℓ} {B : Type κ} → Result E (Unit {0}) → Result E B → Result E B
first >> second = first >>= λ _. second

module _ {ℓ κ μ} {E : Type ℓ} {A : Type κ} {B : Type μ} where
  -- What a block that succeeds began with.
  pub bind-ok :
      (start : Result E A) (next : A → Result E B) {b : B}
      → (start >>= next) ≡ ok b
      → (a : A) × (start ≡ ok a) × (next a ≡ ok b)
  bind-ok (err x) next done = cc
  bind-ok (ok a) next done = (a, refl, done)

-- A test that let the code go on.
pub raised {ℓ} : {E : Type ℓ} (t : Bool) (e : E) (u : Unit {0}) → raise_if t e ≡ ok u → t ≡ false
raised true e u h = cc
raised false e u h = refl

-- The state that a call leaves.
pub ok-second {ℓ κ μ} :
    {E : Type ℓ} {A : Type κ} {B : Type μ} {x y : A} {m n : B}
    → ◌≡◌ {A = Result E (A × B)} (ok (x, m)) (ok (y, n))
    → n ≡ m
ok-second h = sym (ap (λ p. p.1) (ok-injective h))

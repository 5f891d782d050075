-- ===== src/Prelude/Errors.antt =====
-- Go's `(value, error)` results: a value, or the error that ended the function.
use mathlib.Core.Path.{◌≡◌, refl}
use mathlib.Core.Logic.{◌⊎◌, inl, inr}
use mathlib.Core.Bool.{Bool, true, false}

pub data Outcome {ℓ κ} (E : Type ℓ) (A : Type κ) : Type (ℓ ⊔ κ) where
  ok : A → Outcome E A
  fail : E → Outcome E A

abbrev pub is_ok {ℓ κ} : {E : Type ℓ} {A : Type κ} → Outcome E A → Bool
is_ok (ok value) = true
is_ok (fail error) = false

pub Outcome-cases {ℓ κ} :
    {E : Type ℓ} {A : Type κ} (o : Outcome E A) → ((a : A) × (o ≡ ok a)) ⊎ ((e : E) × (o ≡ fail e))
Outcome-cases (ok a) = inl (a, refl)
Outcome-cases (fail e) = inr (e, refl)

module _ {ℓ κ μ} {E : Type ℓ} {A : Type κ} {B : Type μ} where
  infixl 5 ◌>>=◌
  -- `if err != nil { return err }`
  abbrev pub ◌>>=◌ : Outcome E A → (A → Outcome E B) → Outcome E B
  ok value >>= rest = rest value
  fail error >>= rest = fail error

  -- Both parts of a chain that succeeds have succeeded.
  pub >>=-eq-ok :
      (first : Outcome E A) (rest : A → Outcome E B) {b : B}
      → (first >>= rest) ≡ ok b
      → (value : A) × (first ≡ ok value) × (rest value ≡ ok b)
  >>=-eq-ok (ok value) rest succeeds = (value, refl, succeeds)
  >>=-eq-ok (fail error) rest succeeds = cc

module _ {ℓ} {E : Type ℓ} where
  infixl 5 ◌>>◌
  abbrev pub ◌>>◌ {μ} : {B : Type μ} → Outcome E (Unit {0}) → Outcome E B → Outcome E B
  check >> rest = check >>= λ done. rest

  abbrev pub fail_if : Bool → E → Outcome E (Unit {0})
  fail_if true error = fail error
  fail_if false error = ok tt

pub ok-injective {ℓ κ} :
    {E : Type ℓ} {A : Type κ} {a b : A} → ◌≡◌ {A = Outcome E A} (ok a) (ok b) → a ≡ b
ok-injective h = cc

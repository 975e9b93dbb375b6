-- ===== src/Prelude/Results.antt =====
-- Go's `(value, error)`: a function that returns an error returns no value with it.
use mathlib.Core.Path.{◌≡◌, refl}
use mathlib.Core.Logic.{◌⊎◌, inl, inr}
use mathlib.Core.Bool.{Bool, true, false}
use mathlib.Core.Option.{Option, none, some}

pub data Result {ℓ κ} (E : Type ℓ) (A : Type κ) : Type (ℓ ⊔ κ) where
  ok : A → Result E A
  err : E → Result E A

infixl 5 ◌>>=◌
abbrev pub ◌>>=◌ {ℓ κ ν} :
    {E : Type ℓ} {A : Type κ} {B : Type ν} → Result E A → (A → Result E B) → Result E B
err e >>= next = err e
ok value >>= next = next value

-- `if test { return err }`
abbrev pub fail_if {ℓ} : {E : Type ℓ} → Bool → E → Result E (Unit {0})
fail_if true e = err e
fail_if false e = ok tt

infixl 5 ◌>>◌
abbrev pub ◌>>◌ {ℓ κ} : {E : Type ℓ} {B : Type κ} → Result E (Unit {0}) → Result E B → Result E B
check >> next = check >>= λ _. next

abbrev pub or_fail {ℓ κ} : {E : Type ℓ} {A : Type κ} → Option A → E → Result E A
or_fail none e = err e
or_fail (some a) e = ok a

module _ {ℓ κ} {E : Type ℓ} {A : Type κ} where
  pub ok_inj : {a b : A} → ◌≡◌ {A = Result E A} (ok a) (ok b) → a ≡ b
  ok_inj same = cc

  pub err_inj : {d e : E} → ◌≡◌ {A = Result E A} (err d) (err e) → d ≡ e
  err_inj same = cc

  pub ok_ne_err : {a : A} {e : E} → ◌≡◌ {A = Result E A} (ok a) (err e) → ⊥
  ok_ne_err same = cc

  pub Result-cases :
      (r : Result E A) → ((value : A) × (r ≡ ok value)) ⊎ ((cause : E) × (r ≡ err cause))
  Result-cases (err cause) = inr (cause, refl)
  Result-cases (ok value) = inl (value, refl)

  -- What a successful chain of two steps says of each.
  pub >>=-eq-ok {ν} :
      {B : Type ν} (first : Result E A) (next : A → Result E B) {last : B}
      → (first >>= next) ≡ ok last
      → (value : A) × (first ≡ ok value) × (next value ≡ ok last)
  >>=-eq-ok (err cause) next same = cc
  >>=-eq-ok (ok value) next same = (value, refl, same)

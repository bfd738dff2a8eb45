-- ===== src/Prelude/Result.antt =====
-- Code that throws an error that matters to its callers.
use mathlib.Core.Path.{◌≡◌, refl}
use mathlib.Core.Bool.{Bool, true, false}
use lisptc.Prelude.Tests.{if◌then◌else◌}

pub data Result {ℓ κ} (E : Type ℓ) (A : Type κ) : Type (ℓ ⊔ κ) where
  err : E → Result E A
  ok : A → Result E A

module _ {ℓ κ μ} {E : Type ℓ} {A : Type κ} {B : Type μ} where
  infixl 5 ◌>>=◌
  abbrev pub ◌>>=◌ : Result E A → (A → Result E B) → Result E B
  err thrown >>= next = err thrown
  ok value >>= next = next value

  -- what a chain that succeeds has gone through
  pub >>=-eq-ok :
      {last : B} (first : Result E A) (next : A → Result E B)
      → (first >>= next) ≡ ok last
      → (value : A) × (first ≡ ok value) × (next value ≡ ok last)
  >>=-eq-ok (err thrown) next e = cc
  >>=-eq-ok (ok value) next e = (value, refl, e)

pub >>=_assoc {ℓ κ μ ν} :
    {E : Type ℓ} {A : Type κ} {B : Type μ} {C : Type ν} (first : Result E A)
    (second : A → Result E B) (third : B → Result E C)
    → ((first >>= second) >>= third) ≡ (first >>= λ value. second value >>= third)
>>=_assoc (err thrown) second third = refl
>>=_assoc (ok value) second third = refl

module _ {ℓ κ μ} {E : Type ℓ} {A : Type κ} (P : A → Type μ) where
  -- what holds of the outcome where there is one
  abbrev pub OnOk : Result E A → Type μ
  OnOk (err _) = Unit
  OnOk (ok a) = P a

  pub OnOk-if : (b : Bool) (x y : Result E A) → OnOk x → OnOk y → OnOk (if b then x else y)
  OnOk-if true x y h k = h
  OnOk-if false x y h k = k

  pub OnOk-if_cases :
      (b : Bool) (x y : Result E A)
      → (b ≡ true → OnOk x)
      → (b ≡ false → OnOk y)
      → OnOk (if b then x else y)
  OnOk-if_cases true x y h k = h refl
  OnOk-if_cases false x y h k = k refl

module _ {ℓ κ μ ν} {E : Type ℓ} {A : Type κ} {B : Type μ} (Q : B → Type ν) where
  pub OnOk-then :
      (x : Result E A) (f : A → Result E B) → ((a : A) → OnOk Q (f a)) → OnOk Q (x >>= f)
  OnOk-then (err thrown) f k = tt
  OnOk-then (ok a) f k = k a

module _ {ℓ κ μ ν π} {E : Type ℓ} {A : Type κ} {B : Type μ} (P : A → Type ν) (Q : B → Type π) where
  pub OnOk-bind :
      (x : Result E A) (f : A → Result E B)
      → OnOk P x
      → ((a : A) → P a → OnOk Q (f a))
      → OnOk Q (x >>= f)
  OnOk-bind (err thrown) f h k = tt
  OnOk-bind (ok a) f h k = k a h

-- ===== src/Base/Results.antt =====
-- Results of C code: a value, or `fault` where the C standard leaves the behaviour undefined
-- (a null, uninitialised or freed pointer is dereferenced, an array is left, an `int` overflows).
use mathlib.Core.Path.{◌≡◌, refl}
use mathlib.Core.Logic.{◌⊎◌, inl, inr}

pub data Run {ℓ} (A : Type ℓ) : Type ℓ where
  done : A → Run A
  fault : Run A

infixl 5 ◌>>=◌
abbrev pub ◌>>=◌ {ℓ κ} : {A : Type ℓ} {B : Type κ} → Run A → (A → Run B) → Run B
done a >>= f = f a
fault >>= f = fault

-- A successful chain has a successful first part.
pub >>=-eq-done {ℓ κ} :
    {A : Type ℓ} {B : Type κ} (m : Run A) (f : A → Run B) {b : B}
    → (m >>= f) ≡ done b
    → (a : A) × (m ≡ done a) × (f a ≡ done b)
>>=-eq-done (done a) f h = (a, refl, h)
>>=-eq-done fault f h = cc

pub Run-cases {ℓ} : {A : Type ℓ} (m : Run A) → (m ≡ fault) ⊎ ((a : A) × (m ≡ done a))
Run-cases (done a) = inr (a, refl)
Run-cases fault = inl refl

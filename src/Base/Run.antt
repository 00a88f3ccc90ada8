-- ===== src/Base/Run.antt =====
-- How a call of the server ends: with a result, or with a fault that the C++ code does not handle.
use mathlib.Core.Path.{◌≡◌, refl}
use mathlib.Core.Bool.{Bool, true, false}
use mathlib.Core.Logic.{◌⊎◌, inl, inr}
use mathlib.Core.Option.{Option, none, some}

-- `out_of_bounds` is a read or a write outside an array, `assert_crash` a failed ASSERT_CRASH,
-- `null_pointer` a call through a null `shared_ptr`, `out_of_fuel` a loop that has not ended.
pub data Fault : Type 0 where
  out_of_bounds assert_crash null_pointer out_of_fuel : Fault

pub data Run {ℓ} (A : Type ℓ) : Type ℓ where
  done : A → Run A
  fault : Fault → Run A

infixl 5 ◌>>=◌
abbrev pub ◌>>=◌ {ℓ κ} : {A : Type ℓ} {B : Type κ} → Run A → (A → Run B) → Run B
done a >>= f = f a
fault e >>= f = fault e

abbrev pub map {ℓ κ} : {A : Type ℓ} {B : Type κ} → (A → B) → Run A → Run B
map f (done a) = done (f a)
map f (fault e) = fault e

abbrev pub read {ℓ} : {A : Type ℓ} → Option A → Run A
read none = fault out_of_bounds
read (some a) = done a

abbrev pub assert_that {ℓ} : {A : Type ℓ} → Bool → Run A → Run A
assert_that true k = k
assert_that false k = fault assert_crash

pub >>=-eq-done {ℓ κ} :
    {A : Type ℓ} {B : Type κ} (m : Run A) (f : A → Run B) {b : B}
    → (m >>= f) ≡ done b
    → (a : A) × (m ≡ done a) × (f a ≡ done b)
>>=-eq-done (done a) f h = (a, refl, h)
>>=-eq-done (fault e) f h = cc

pub Run-cases {ℓ} :
    {A : Type ℓ} (m : Run A) → ((a : A) × (m ≡ done a)) ⊎ ((e : Fault) × (m ≡ fault e))
Run-cases (done a) = inl (a, refl)
Run-cases (fault e) = inr (e, refl)

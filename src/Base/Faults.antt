-- ===== src/Base/Faults.antt =====
-- How a piece of C++ ends: normally with a value, or in one of the ways that C++ leaves without one.
use mathlib.Core.Path.{◌≡◌, refl}

pub data Fault : Type 0 where
  buffer_overflow : Fault  -- a write past the end of an array
  out_of_bounds : Fault  -- a read past either end of an array
  null_file : Fault  -- a stdio call on a null `FILE*`
  null_string : Fault  -- a string function on a null pointer
  wild_pointer : Fault  -- a use of a pointer that points nowhere
  invalid_argument : Fault  -- an uncaught `std::invalid_argument`
  out_of_range : Fault  -- an uncaught `std::out_of_range`
  uninitialised : Fault  -- a read of a variable that nothing was stored in
  blocked : Fault  -- a read that nothing arrives for
  exit_failure : Fault  -- `exit(EXIT_FAILURE)` or `exit(-1)`

pub data Outcome {ℓ} (A : Type ℓ) : Type ℓ where
  ok : A → Outcome A
  fault : Fault → Outcome A

-- What follows a fault does not happen.
infixl 5 ◌>>=◌
abbrev pub ◌>>=◌ {ℓ κ} : {B : Type κ} {A : Type ℓ} → Outcome A → (A → Outcome B) → Outcome B
fault reason >>= next = fault reason
ok value >>= next = next value

pub >>=-eq-ok {ℓ κ} :
    {B : Type κ} {A : Type ℓ} (first : Outcome A) (next : A → Outcome B) {result : B}
    → (first >>= next) ≡ ok result
    → (value : A) × (first ≡ ok value) × (next value ≡ ok result)
>>=-eq-ok (fault reason) next h = cc
>>=-eq-ok (ok value) next h = (value, refl, h)

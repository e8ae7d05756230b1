-- ===== src/Base/Digits.antt =====
-- How many characters `%d` prints.
use Prim.Native.Nat.{ℕ, zero, suc, ◌+◌, ◌*◌, ◌≤◌, ◌<◌, ◌/◌, ◌%◌}
use mathlib.Core.List.{[], ◌∷◌}
use native.Mathlib.Omega.{arith}
use native.Mathlib.Decide.{dec_lt}
use dps912_unix.Base.Tests.{ltb_of_lt, ltb_of_le}
use dps912_unix.Base.Lists.{length}
use dps912_unix.Base.Integers.{ℤ, pos, negsuc}
use dps912_unix.Base.Text.{Bytes, digits_onto, decimal}

-- Powers of ten.
power : ℕ → ℕ
power zero = 1
power (suc k) = 10 * power k

length-digits_onto :
    (fuel k n : ℕ) (tail : Bytes)
    → n < power (suc k)
    → length (digits_onto fuel n tail) ≤ suc k + length tail
unfolding digits_onto power
length-digits_onto zero k n tail h = omega arith
length-digits_onto (suc fuel) zero n tail h = rw (ltb_of_lt n 10 (omega arith)) (omega arith)
length-digits_onto (suc fuel) (suc k) n tail h = elim (dec_lt n 10) [
  | yes small ↦ rw (ltb_of_lt n 10 small) (omega arith)
  | no large ↦
      rw (ltb_of_le n 10 (omega arith))
        (omega (arith, length-digits_onto fuel k (n / 10) ((48 + n % 10) ∷ tail) (omega arith)))
]

-- The values of a 32-bit `int`.
abbrev pub IsInt : ℤ → Type 0
IsInt (pos n) = n < 2147483648
IsInt (negsuc n) = n < 2147483648

pub length-decimal : (n : ℤ) → IsInt n → length (decimal n) ≤ 11
unfolding decimal power
length-decimal (pos n) h = omega (arith, length-digits_onto (suc n) 9 n [] (omega arith))
length-decimal (negsuc n) h =
    omega (arith, length-digits_onto (suc (suc n)) 9 (suc n) [] (omega arith))

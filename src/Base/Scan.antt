-- ===== src/Base/Scan.antt =====
-- What `cin >> n` of an `int` and `stoi` read of a text: spaces, then digits.
use Prim.Native.Nat.{ℕ, zero, suc, ◌+◌, ◌-◌, ◌*◌, ◌/◌, ◌%◌, ◌≤◌, ◌<◌}
use mathlib.Core.Path.{sym, ◌≡◌, refl, ap, ◌∙◌}
use mathlib.Core.Bool.{not, Bool, true, false, ◌&&◌, ◌||◌}
use mathlib.Core.Logic.{◌≢◌, inl, inr}
use mathlib.Core.List.{List, [], ◌∷◌, ◌++◌}
use native.Mathlib.Omega.{arith}
use native.Mathlib.Decide.{dec_lt}
use dps912_unix.Base.Tests.{
  Bool-cases, ==_refl, ◌==◌, leb, leb_of_le, ltb_of_lt, ltb_of_le, if◌then◌else◌,
}
use dps912_unix.Base.Lists.{All}
use dps912_unix.Base.Integers.{ℤ, pos, negsuc}
use dps912_unix.Base.Text.{Bytes, digits_onto, decimal}

unfoldable pub is_space : ℕ → Bool
is_space c = c == b' ' || (leb 9 c && leb c 13)

unfoldable pub skip_white : Bytes → Bytes
unfolding is_space
skip_white [] = []
skip_white (c ∷ text) = if is_space c then skip_white text else c ∷ text

unfoldable pub is_digit : ℕ → Bool
is_digit c = leb b'0' c && leb c b'9'

unfoldable pub digits_of : Bytes → Bytes
unfolding is_digit
digits_of [] = []
digits_of (c ∷ text) = if is_digit c then c ∷ digits_of text else []

unfoldable pub after_digits : Bytes → Bytes
unfolding is_digit
after_digits [] = []
after_digits (c ∷ text) = if is_digit c then after_digits text else c ∷ text

unfoldable pub number : ℕ → Bytes → ℕ
number n [] = n
number n (c ∷ text) = number (n * 10 + (c - b'0')) text

abbrev pub negative : ℕ → ℤ
negative zero = pos 0
negative (suc n) = negsuc n

-- A digit's code.
pub record IsDigit (c : ℕ) : Type 0 where
  pub above : b'0' ≤ c
  pub below : c ≤ b'9'

digits_onto-IsDigit :
    (fuel n : ℕ) (tail : Bytes) → All IsDigit tail → All IsDigit (digits_onto fuel n tail)
unfolding digits_onto
digits_onto-IsDigit zero n tail h = h
digits_onto-IsDigit (suc fuel) n tail h = elim (dec_lt n 10) [
  | yes small ↦ rw (ltb_of_lt n 10 small) (record { above = omega arith; below = omega arith }, h)
  | no large ↦ rw (ltb_of_le n 10 (omega arith)) (
      digits_onto-IsDigit fuel (n / 10) ((48 + n % 10) ∷ tail)
        (record { above = omega arith; below = omega arith }, h))
]

pub decimal-IsDigit : (n : ℕ) → All IsDigit (decimal (pos n))
unfolding decimal
decimal-IsDigit n = digits_onto-IsDigit (suc n) n [] tt

number-digits_onto :
    (fuel n : ℕ) (tail : Bytes) → n < fuel → number 0 (digits_onto fuel n tail) ≡ number n tail
unfolding digits_onto number
number-digits_onto zero n tail h = absurd (omega arith)
number-digits_onto (suc fuel) n tail h = elim (dec_lt n 10) [
  | yes small ↦
      rw (ltb_of_lt n 10 small)
        (let e : 0 * 10 + (48 + n - 48) ≡ n = omega arith in ap (λ (m : ℕ). number m tail) e)
  | no large ↦ rw (ltb_of_le n 10 (omega arith)) (
      let e : n / 10 * 10 + (48 + n % 10 - 48) ≡ n = omega arith in
      number-digits_onto fuel (n / 10) ((48 + n % 10) ∷ tail) (omega arith)
      ∙ ap (λ (m : ℕ). number m tail) e)
]

-- What `%d` prints of a natural number reads back as it.
pub number-decimal : (n : ℕ) → number 0 (decimal (pos n)) ≡ n
unfolding decimal number
number-decimal n = number-digits_onto (suc n) n [] (omega arith)

digits_onto_cons :
    (fuel n : ℕ) (c : ℕ) (tail : Bytes)
    → (d : ℕ) × (ds : Bytes) × (digits_onto fuel n (c ∷ tail) ≡ d ∷ ds)
unfolding digits_onto
digits_onto_cons zero n c tail = (c, tail, refl)
digits_onto_cons (suc fuel) n c tail = elim (dec_lt n 10) [
  | yes small ↦ (48 + n, c ∷ tail, rw (ltb_of_lt n 10 small) refl)
  | no large ↦
      rw (ltb_of_le n 10 (omega arith)) (digits_onto_cons fuel (n / 10) (48 + n % 10) (c ∷ tail))
]

pub decimal_cons : (n : ℕ) → (d : ℕ) × (ds : Bytes) × (decimal (pos n) ≡ d ∷ ds)
unfolding decimal digits_onto
decimal_cons n = elim (dec_lt n 10) [
  | yes small ↦ (48 + n, [], rw (ltb_of_lt n 10 small) refl)
  | no large ↦ rw (ltb_of_le n 10 (omega arith)) (digits_onto_cons n (n / 10) (48 + n % 10) [])
]

pub is_digit_lem : (c : ℕ) → IsDigit c → is_digit c ≡ true
unfolding is_digit
is_digit_lem c h = rw (leb_of_le b'0' c h.above, leb_of_le c b'9' h.below) refl

-- Digits in front of something else are all that is read.
pub digits_of-append :
    (s : Bytes) (c : ℕ) (rest : Bytes)
    → All IsDigit s
    → is_digit c ≡ false
    → digits_of (s ++ c ∷ rest) ≡ s
unfolding digits_of
digits_of-append [] c rest h k = rw k refl
digits_of-append (d ∷ s) c rest h k =
    rw (is_digit_lem d h.0) (ap (◌∷◌ d) (digits_of-append s c rest h.1 k))

abbrev pub lacks : ℕ → Bytes → Bool
lacks c [] = true
lacks c (d ∷ s) = not (d == c) && lacks c s

pub lacks_lem : (c : ℕ) (s : Bytes) → lacks c s ≡ true → All (λ d. d ≢ c) s
lacks_lem c [] h = tt
lacks_lem c (d ∷ s) h = elim (Bool-cases (d == c)) [
  | inl e ↦
      absurd
        (let x : (not true && lacks c s) ≡ true = sym (ap (λ b. not b && lacks c s) e) ∙ h in cc)
  | inr e ↦ (
    (λ same.
        absurd (let x : true ≡ false = sym (==_refl c) ∙ ap (λ m. m == c) (sym same) ∙ e in cc)),
    lacks_lem c s (sym (ap (λ b. not b && lacks c s) e) ∙ h),
  )
]

pub All-append {ℓ κ} :
    {A : Type ℓ} (P : A → Type κ) (xs ys : List A) → All P xs → All P ys → All P (xs ++ ys)
All-append P [] ys h k = k
All-append P (x ∷ xs) ys h k = (h.0, All-append P xs ys h.1 k)

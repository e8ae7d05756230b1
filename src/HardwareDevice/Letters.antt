-- ===== src/HardwareDevice/Letters.antt =====
-- Labs/Lab 4/hardwareDevice.c, what the buffer holds.
use dps912_unix.Base.{Bytes, [], ap, arith, refl, replicate, ◌%◌, ◌++◌, ◌+◌, ◌<◌, ◌∙◌, ◌∷◌, ◌≡◌, ℕ}
use dps912_unix.HardwareDevice.{advance, fill, next_letter}

-- Fifteen times one letter, the `k`th behind 'a', and a NUL.
abbrev pub letters : ℕ → Bytes
letters k = replicate 15 (b'a' + k) ++ 0 ∷ []

next_letter_lem : (k : ℕ) → k < 26 → next_letter (b'a' + k) ≡ b'a' + (k + 1) % 26
unfolding next_letter
next_letter_lem k h = ground arith

pub advance-letters : (k : ℕ) → k < 26 → advance (letters k) ≡ letters ((k + 1) % 26)
unfolding advance
advance-letters k h = rw (next_letter_lem k h) refl

pub fill-letters : (buffer : Bytes) → fill buffer ≡ letters 0
unfolding fill
fill-letters buffer = refl

-- A buffer that holds letters.
pub record HasLetters (buffer : Bytes) : Type 0 where
  pub place : ℕ
  pub small : place < 26
  pub shown : buffer ≡ letters place

pub HasLetters-advance : (buffer : Bytes) → HasLetters buffer → HasLetters (advance buffer)
HasLetters-advance buffer h = record {
  place = (h.place + 1) % 26;
  small = omega arith;
  shown = ap advance h.shown ∙ advance-letters h.place h.small;
}

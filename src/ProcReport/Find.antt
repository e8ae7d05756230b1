-- ===== src/ProcReport/Find.antt =====
-- Labs/Lab 1/LabOne_Watler.cpp, the searches in a line.
use dps912_unix.Base.{
  ==_of_ne, ==_refl, All, Bytes, [], arith, false, length, npos, refl, sym, ◌++◌, ◌<◌, ◌∷◌, ◌≡◌,
  ◌≢◌, ℕ,
}
use dps912_unix.ProcReport.{find_last, find_text, is_found, starts_with}

-- A line without the first character of a needle does not hold the needle.
pub find_text_missing :
    (n : ℕ) (needle text : Bytes) → All (λ c. c ≢ n) text → find_text (n ∷ needle) text ≡ npos
unfolding find_text starts_with
find_text_missing n needle [] h = refl
find_text_missing n needle (c ∷ text) h =
    rw (==_of_ne n c (λ e. h.0 (sym e)), find_text_missing n needle text h.1) refl

pub find_last_missing : (c : ℕ) (text : Bytes) → All (λ d. d ≢ c) text → find_last c text ≡ npos
unfolding find_last
find_last_missing c [] h = refl
find_last_missing c (d ∷ text) h = rw (find_last_missing c text h.1, ==_of_ne d c h.0) refl

-- The last hit has no other behind it.
pub find_last-append :
    (c : ℕ) (s rest : Bytes)
    → All (λ d. d ≢ c) rest
    → length s < npos
    → find_last c (s ++ c ∷ rest) ≡ length s
unfolding find_last
find_last-append c [] rest h k = rw (find_last_missing c rest h, ==_refl c) refl
find_last-append c (d ∷ s) rest h k =
    rw
      (
        find_last-append c s rest h (omega arith),
        ==_of_ne (length s) npos (λ e. absurd (omega arith)),
      )
      refl

pub is_found-npos : is_found npos ≡ false
unfolding is_found
is_found-npos = refl

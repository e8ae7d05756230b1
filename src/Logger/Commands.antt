-- ===== src/Logger/Commands.antt =====
-- Assignments/A2/Logger.cpp, the ladder of `receiveThread` that turns a command into a level.
use dps912_unix.Base.{
  All, drop, drop-append_next, find, find-append, find_bound, find_missing, inl, inr, leb_of_le,
  length, length-append, npos, ok, substr, ◌%◌, ◌++◌, ◌+◌, ◌<◌, ◌^◌, ◌∷◌, ◌≢◌, ◌≤◌, ◌≡◌, refl, true,
  false, none, some, arith, Bytes, codes, string_ge, string_ge_trans, if◌then◌else◌,
}
use dps912_unix.Logger.{stat_of, debug, critical, level_of_stat}

-- A text at or above a word is at or above every word below that one.
string_ge_down :
    (stat high low : Bytes)
    → string_ge high low ≡ true
    → string_ge stat low ≡ false
    → string_ge stat high ≡ false
string_ge_down stat high low h k = grind (arith, string_ge_trans stat high low)

-- The ladder is equal to a ladder of two tests, "DEBUG" and "CRITICAL": whatever the text, its
-- tests for "WARNING" and "ERROR" decide nothing.
pub level_of_stat_two_tests :
    (stat : Bytes)
    → level_of_stat stat ≡ (
        if string_ge stat (codes "DEBUG")
        then some debug
        else if string_ge stat (codes "CRITICAL")
        then some critical
        else none)
unfolding level_of_stat
level_of_stat_two_tests stat = ground (
  arith,
  string_ge_down stat (codes "WARNING") (codes "DEBUG") (unfold string_ge in refl),
  string_ge_down stat (codes "ERROR") (codes "DEBUG") (unfold string_ge in refl),
)

-- The text behind the first `=`.
pub stat_of-append :
    (before stat : Bytes)
    → All (λ c. c ≢ b'=') before
    → length (before ++ b'=' ∷ stat) < npos
    → stat_of (before ++ b'=' ∷ stat) ≡ ok stat
unfolding stat_of substr
stat_of-append before stat h k =
    let e : (length before + 1) % 2 ^ 64 ≡ length before + 1 =
      omega (arith, length-append before (b'=' ∷ stat)) in
    let d : drop (length before + 1) (before ++ b'=' ∷ stat) ≡ stat =
      drop-append_next before stat b'=' in
    rw (
      find-append b'=' before stat h (omega (arith, length-append before (b'=' ∷ stat))),
      e,
      d,
      leb_of_le (length before + 1) (length (before ++ b'=' ∷ stat))
          (omega (arith, length-append before (b'=' ∷ stat))),
    )

-- With no `=` the sum wraps to 0 and the whole text is compared.
pub stat_of_whole : (text : Bytes) → All (λ c. c ≢ b'=') text → stat_of text ≡ ok text
unfolding stat_of substr
stat_of_whole text h = rw (find_missing b'=' text h, leb_of_le 0 (length text) (omega arith))

-- `substr` never throws here.
pub stat_of_total : (text : Bytes) → length text < npos → (stat : Bytes) × (stat_of text ≡ ok stat)
unfolding stat_of substr
stat_of_total text h = (
  drop ((find b'=' text + 1) % 2 ^ 64) text,
  rw (leb_of_le ((find b'=' text + 1) % 2 ^ 64) (length text) bound),
)
  where
    bound : (find b'=' text + 1) % 2 ^ 64 ≤ length text
    bound = elim (find_bound b'=' text) [ inl e ↦ rw e (omega arith) | inr lt ↦ omega arith ]

-- ===== src/ProcReport/Memory.antt =====
-- Labs/Lab 1/LabOne_Watler.cpp, the line with the memory of a process.
use mathlib.Core.Path.{subst}
use dps912_unix.Base.{
  All-append, lacks_lem, append_assoc, drop-append, find, find-append, take_all, true, ◌>>=◌, All,
  [], decimal-IsDigit, decimal_cons, digits_of-append, fault, if◌then◌else◌, leb, length,
  length-append, length-decimal, length-replicate, number, number-decimal, out_of_range, sym, ◌+◌,
  ◌≢◌, ◌≤◌, ==_of_ne, Bytes, IsDigit, ap, arith, codes, decimal, digits_of, false, is_digit,
  is_space, leb_of_le, leb_of_lt, ok, pos, refl, replicate, skip_white, suc, zero, ◌++◌, ◌<◌, ◌∙◌,
  ◌∷◌, ◌≡◌, ℕ,
}
use dps912_unix.ProcReport.{
  find_last, find_text, is_found, starts_with, substr_of, Report, read_memory, stoi, stoi_digits,
  stoi_from,
}
use dps912_unix.ProcReport.Find.{find_last-append}

-- The line as proc(5) shows it, with `k` spaces in front of the number.
unfoldable pub rss_line : ℕ → ℕ → Bytes
rss_line k n = codes "VmRSS:" ++ b'\t' ∷ (replicate k b' ' ++ (decimal (pos n) ++ codes " kB"))

-- What is kept of it.
unfoldable pub memory_text : ℕ → ℕ → Bytes
memory_text k n = replicate k b' ' ++ (decimal (pos n) ++ codes " kB")

skip_white-replicate :
    (k : ℕ) (text : Bytes) → skip_white (replicate k b' ' ++ text) ≡ skip_white text
unfolding skip_white is_space
skip_white-replicate zero text = refl
skip_white-replicate (suc k) text = skip_white-replicate k text

-- A digit is neither a space nor a sign.
stoi_from_digit :
    (d : ℕ) (text : Bytes) → IsDigit d → stoi (d ∷ text) ≡ stoi_digits false (digits_of (d ∷ text))
unfolding stoi stoi_from skip_white is_space
stoi_from_digit d text h =
    rw
      (
        ==_of_ne d b' ' (λ e. absurd (omega (arith, h.above))),
        leb_of_lt d 13 (omega (arith, h.above)),
        leb_of_le 9 d (omega (arith, h.above)),
        ==_of_ne d b'-' (λ e. absurd (omega (arith, h.above))),
        ==_of_ne d b'+' (λ e. absurd (omega (arith, h.above))),
      )
      refl

stoi_small :
    (d : ℕ) (ds : Bytes) (n : ℕ)
    → number 0 (d ∷ ds) ≡ n
    → n < 2147483648
    → stoi_digits false (d ∷ ds) ≡ ok (pos n)
unfolding stoi_digits
stoi_small d ds n value small =
    ap (λ (m : ℕ). if leb m 2147483647 then ok (pos m) else fault out_of_range) value
    ∙ rw (leb_of_le n 2147483647 (omega arith)) refl

stoi_number :
    (n : ℕ) (c : ℕ) (rest : Bytes)
    → n < 2147483648
    → is_digit c ≡ false
    → stoi (decimal (pos n) ++ c ∷ rest) ≡ ok (pos n)
stoi_number n c rest small k =
    let (d, ds, e) = decimal_cons n in
    let digits : All IsDigit (d ∷ ds) = subst (All IsDigit) e (decimal-IsDigit n) in
    let value : number 0 (d ∷ ds) ≡ n = ap (number 0) (sym e) ∙ number-decimal n in
    ap (λ s. stoi (s ++ c ∷ rest)) e
    ∙ stoi_from_digit d (ds ++ c ∷ rest) digits.0
    ∙ ap (stoi_digits false) (digits_of-append (d ∷ ds) c rest digits k)
    ∙ stoi_small d ds n value small

pub stoi-memory_text : (k n : ℕ) → n < 2147483648 → stoi (memory_text k n) ≡ ok (pos n)
unfolding memory_text stoi
stoi-memory_text k n small =
    ap stoi_from (skip_white-replicate k (decimal (pos n) ++ codes " kB"))
    ∙ stoi_number n b' ' (codes "kB") small (unfold is_digit in refl)

length-rss : (k n : ℕ) → length (memory_text k n) ≡ k + (length (decimal (pos n)) + 3)
unfolding memory_text
length-rss k n =
    length-append (replicate k b' ') (decimal (pos n) ++ codes " kB")
    ∙ let spaces : length (replicate k b' ') ≡ k = length-replicate k _ in
      (λ i. spaces i + length-append (decimal (pos n)) (codes " kB") i)

unspaced : (n : ℕ) → All (λ c. c ≢ b' ') (decimal (pos n))
unspaced n = off (decimal (pos n)) (decimal-IsDigit n)
  where
    off : (s : Bytes) → All IsDigit s → All (λ c. c ≢ b' ') s
    off [] h = tt
    off (c ∷ s) h = ((λ e. absurd (omega (arith, h.0.above))), off s h.1)

short_decimal : (n : ℕ) → n < 2147483648 → length (decimal (pos n)) ≤ 11
short_decimal n h = length-decimal (pos n) h

pub substr_tail :
    (head tail : Bytes) (count : ℕ)
    → length tail ≤ count
    → substr_of (head ++ tail) (length head) count ≡ ok tail
unfolding substr_of
substr_tail head tail count h =
    rw
      (
        leb_of_le (length head) (length (head ++ tail)) (omega (arith, length-append head tail)),
        drop-append head tail,
        take_all count tail h,
      )
      refl

read_memory_lem :
    (head tail save : Bytes) (s : Report)
    → save ≡ head ++ tail
    → is_found (find_text (codes "VmRSS") save) ≡ true
    → find b' ' save ≡ length head
    → length tail ≤ find_last b' ' save
    → read_memory save s ≡ ok (record s { used_mem = tail })
unfolding read_memory
read_memory_lem head tail save s parts found first last =
    ap
      (λ b.
        let used = substr_of save (find b' ' save) (find_last b' ' save) >>= λ text.
        let t : Report = record s { used_mem = text } in ok t in
        if b then used else ok s)
      found
    ∙ ap (λ o. o >>= λ text. let t : Report = record s { used_mem = text } in ok t)
        ((λ i. substr_of (parts i) (first i) (find_last b' ' save))
          ∙ substr_tail head tail (find_last b' ' save) last)

-- The place of the last space of such a line.
find_last-rss_line :
    (k n : ℕ)
    → k < 2147483648
    → n < 2147483648
    → find_last b' ' (rss_line k n) ≡ 7 + (k + length (decimal (pos n)))
unfolding rss_line
find_last-rss_line k n hk hn =
    let before = codes "VmRSS:" ++ b'\t' ∷ (replicate k b' ' ++ decimal (pos n)) in
    let gap : Bytes = replicate k b' ' in
    let spaces : length gap ≡ k = length-replicate k _ in
    let size : length before ≡ 7 + (k + length (decimal (pos n))) =
      omega (arith, length-append (replicate k b' ') (decimal (pos n)), spaces) in
    (λ i. find_last b' ' (
      codes "VmRSS:"
      ++ b'\t' ∷ sym (append_assoc (replicate k b' ') (decimal (pos n)) (codes " kB")) i))
    ∙ find_last-append b' ' before (codes "kB")
        ((λ e. absurd (omega arith)), ((λ e. absurd (omega arith)), tt))
        (omega (arith, short_decimal n hn))
    ∙ size

-- With spaces in front of it, the text from the first space on is kept, its unit included.
pub read_memory-padded :
    (k n : ℕ) (s : Report)
    → suc k < 2147483648
    → n < 2147483648
    → read_memory (rss_line (suc k) n) s ≡ ok (record s { used_mem = memory_text (suc k) n })
unfolding rss_line memory_text
read_memory-padded k n s hk hn =
    read_memory_lem (codes "VmRSS:" ++ b'\t' ∷ []) (memory_text (suc k) n) (rss_line (suc k) n) s
      refl (unfold is_found find_text starts_with in refl) (unfold find in refl)
      (omega (arith, length-rss (suc k) n, find_last-rss_line (suc k) n hk hn))

-- With none, only the unit is kept.
pub read_memory-unpadded :
    (n : ℕ) (s : Report)
    → n < 2147483648
    → read_memory (rss_line 0 n) s ≡ ok (record s { used_mem = codes " kB" })
unfolding rss_line
read_memory-unpadded n s hn =
    let head = codes "VmRSS:" ++ b'\t' ∷ decimal (pos n) in
    read_memory_lem head (codes " kB") (rss_line 0 n) s refl
      (unfold is_found find_text starts_with in refl)
      (find-append b' ' head (codes "kB")
        (All-append (λ d. d ≢ b' ') (codes "VmRSS:" ++ b'\t' ∷ []) (decimal (pos n))
          (lacks_lem b' ' (codes "VmRSS:" ++ b'\t' ∷ []) refl) (unspaced n))
        (omega (arith, short_decimal n hn)))
      (omega (arith, find_last-rss_line 0 n (omega arith) hn))

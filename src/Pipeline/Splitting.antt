-- ===== src/Pipeline/Splitting.antt =====
-- Labs/Lab 7/Lab7.cpp, the loop that splits an argument into its words.
use dps912_unix.Base.{
  All, Bool-cases, Bytes, List, Outcome, [], ap, append-nil, append_assoc, arith, buffer_overflow,
  dec_lt, fault, if◌then◌else◌, inl, inr, leb, leb_of_le, leb_of_lt, length, length-append,
  length-replicate, ltb, ltb_of_le, ltb_of_lt, ok, refl, replicate, some, suc, sym, zero, ◌++◌, ◌+◌,
  ◌<◌, ◌>>=◌, ◌∙◌, ◌∷◌, ◌≡◌, ◌≤◌, ℕ,
}
use dps912_unix.Pipeline.{
  collect, copy_argument, len, max_words, next_word, of_option, store_word, strtok,
}
use dps912_unix.Pipeline.Words.{
  Tail, ends, goes_on, skip_spaces_only, spaced, strtok_word, words_of, IsWord,
}

-- What the loop comes to.
pub collected : List Bytes → List Bytes → Outcome (List Bytes)
collected words more =
    if leb (length words + length more) max_words then ok (words ++ more) else fault buffer_overflow

store_word_lem :
    (words : List Bytes) (word : Bytes)
    → length word < len
    → store_word words word
      ≡ (if ltb (length words) max_words then ok (words ++ word ∷ []) else fault buffer_overflow)
unfolding store_word
store_word_lem words word short = rw (ltb_of_lt (length word) len short) (ground arith)

collect_word :
    (fuel : ℕ) (words : List Bytes) (text word rest : Bytes)
    → strtok text ≡ some (word, rest)
    → length word < len
    → collect (suc fuel) words text ≡ (
        if ltb (length words) max_words
        then collect fuel (words ++ word ∷ []) rest
        else some (fault buffer_overflow))
unfolding collect
collect_word fuel words text word rest e short =
    rw (collect, e, store_word_lem words word short)
      (elim (Bool-cases (ltb (length words) max_words)) [ inl t ↦ rw t refl | inr f ↦ rw f refl ])

-- Each entry is a word that fits into a row of the array.
pub Fit : List (Bytes × ℕ) → Type 0
Fit = All λ p. IsWord p.0 × (length p.0 < len)

collect_only :
    (fuel before : ℕ) (words : List Bytes)
    → collect (suc fuel) words (replicate before b' ') ≡ some (ok words)
unfolding collect
collect_only fuel before words = rw (collect, strtok, skip_spaces_only before, next_word) refl

collected_cons :
    (words : List Bytes) (word : Bytes) (more : List Bytes)
    → collected (words ++ word ∷ []) more ≡ collected words (word ∷ more)
unfolding collected
collected_cons words word more =
    let e : length words + 1 + length more ≡ length words + suc (length more) = omega arith in
    rw (append_assoc words (word ∷ []) more, length-append words (word ∷ []), e) refl

collected_full :
    (words : List Bytes) (word : Bytes) (more : List Bytes)
    → max_words ≤ length words
    → collected words (word ∷ more) ≡ fault buffer_overflow
unfolding collected
collected_full words word more h =
    rw (leb_of_lt (length words + suc (length more)) max_words (omega arith)) refl

-- A pass on a word, and what follows.
collect_next :
    (fuel before : ℕ) (words : List Bytes) (word tail rest : Bytes) (more : List Bytes)
    → IsWord word
    → length word < len
    → Tail tail rest
    → (length (words ++ word ∷ []) ≤ max_words
        → collect fuel (words ++ word ∷ []) rest ≡ some (collected (words ++ word ∷ []) more))
    → collect (suc fuel) words (replicate before b' ' ++ (word ++ tail))
      ≡ some (collected words (word ∷ more))
collect_next fuel before words word tail rest more is short t go =
    collect_word fuel words (replicate before b' ' ++ (word ++ tail)) word rest
      (strtok_word before word tail rest is t) short
    ∙ elim (dec_lt (length words) max_words) [
      | yes room ↦ rw (ltb_of_lt (length words) max_words room) (
          go (omega (arith, length-append words (word ∷ [])))
          ∙ ap some (collected_cons words word more))
      | no full ↦
          rw (ltb_of_le (length words) max_words (omega arith))
            (ap some (sym (collected_full words word more (omega arith))))
    ]

collected_nil : (words : List Bytes) → length words ≤ max_words → ok words ≡ collected words []
unfolding collected
collected_nil words h =
    rw (leb_of_le (length words + 0) max_words (omega arith), append-nil words) refl

-- With fuel for one pass more than there are words.
collect_lem :
    (ws : List (Bytes × ℕ)) (fuel before : ℕ) (words : List Bytes)
    → Fit ws
    → length ws < fuel
    → length words ≤ max_words
    → collect fuel words (spaced before ws) ≡ some (collected words (words_of ws))
unfolding spaced Fit
collect_lem ws zero before words fit enough few = absurd (omega arith)
collect_lem [] (suc fuel) before words fit enough few =
    collect_only fuel before words ∙ ap some (collected_nil words few)
collect_lem ((w, zero) ∷ []) (suc fuel) before words fit enough few =
    collect_next fuel before words w [] [] [] fit.0.0 fit.0.1 ends
      (collect_lem [] fuel 0 (words ++ w ∷ []) tt (omega arith))
collect_lem ((w, suc n) ∷ []) (suc fuel) before words fit enough few =
    collect_next fuel before words w (b' ' ∷ replicate n b' ') (replicate n b' ') [] fit.0.0 fit.0.1
      (goes_on (replicate n b' ')) (collect_lem [] fuel n (words ++ w ∷ []) tt (omega arith))
collect_lem ((w, n) ∷ next ∷ rest) (suc fuel) before words fit enough few =
    collect_next fuel before words w (b' ' ∷ spaced n (next ∷ rest)) (spaced n (next ∷ rest))
      (words_of (next ∷ rest)) fit.0.0 fit.0.1 (goes_on (spaced n (next ∷ rest)))
      (collect_lem (next ∷ rest) fuel n (words ++ w ∷ []) fit.1 (omega arith))

length_pass :
    (before : ℕ) (word tail : Bytes)
    → length (replicate before b' ' ++ (word ++ tail)) ≡ before + (length word + length tail)
length_pass before word tail = omega (
  arith,
  length-append (replicate before b' ') (word ++ tail),
  length-append word tail,
  length-replicate {A = ℕ} before b' ',
)

length-IsWord : (word : Bytes) → IsWord word → 1 ≤ length word
unfolding IsWord
length-IsWord [] h = absurd h
length-IsWord (c ∷ word) h = omega arith

-- A line is at least as long as its words are many, and as each of them.
spaced_bounds :
    (ws : List (Bytes × ℕ)) (before : ℕ)
    → All (λ p. IsWord p.0) ws
    → length (spaced before ws) < len
    → Fit ws × (length ws ≤ length (spaced before ws))
unfolding spaced Fit
spaced_bounds [] before is short = (tt, omega arith)
spaced_bounds ((w, zero) ∷ []) before is short =
    let size = length_pass before w [] in
    let some_length = length-IsWord w is.0 in (((is.0, omega arith), tt), omega arith)
spaced_bounds ((w, suc n) ∷ []) before is short =
    let size = length_pass before w (b' ' ∷ replicate n b' ') in
    let some_length = length-IsWord w is.0 in (((is.0, omega arith), tt), omega arith)
spaced_bounds ((w, n) ∷ next ∷ rest) before is short =
    let size = length_pass before w (b' ' ∷ spaced n (next ∷ rest)) in
    let some_length = length-IsWord w is.0 in
    let (fit, count) = spaced_bounds (next ∷ rest) n is.1 (omega arith) in
    (((is.0, omega arith), fit), omega arith)

pub copy_short : (text : Bytes) → length text < len → copy_argument (some text) ≡ ok text
unfolding copy_argument
copy_short text short = rw (ltb_of_lt (length text) len short) refl

collect_whole :
    (ws : List (Bytes × ℕ)) (before : ℕ)
    → All (λ p. IsWord p.0) ws
    → length (spaced before ws) < len
    → of_option (collect len [] (spaced before ws))
      ≡ (if leb (length (words_of ws)) max_words then ok (words_of ws) else fault buffer_overflow)
unfolding of_option collected
collect_whole ws before is short =
    let count_from : 0 + length (words_of ws) ≡ length (words_of ws) = omega arith in
    let (fit, count) = spaced_bounds ws before is short in
    rw (collect_lem ws len before [] fit (omega arith) (omega arith)) (rw count_from refl)

pub collect_few :
    (ws : List (Bytes × ℕ)) (before : ℕ)
    → All (λ p. IsWord p.0) ws
    → length (spaced before ws) < len
    → length (words_of ws) ≤ max_words
    → of_option (collect len [] (spaced before ws)) ≡ ok (words_of ws)
collect_few ws before is short few =
    collect_whole ws before is short ∙ rw (leb_of_le (length (words_of ws)) max_words few) refl

-- An argument of fewer than 64 characters is split into its words, wherever its spaces are, if it has
-- three at most; with more words the loop writes past the end of the array. The loop always ends.
pub split_lem :
    (ws : List (Bytes × ℕ)) (before : ℕ)
    → All (λ p. IsWord p.0) ws
    → length (spaced before ws) < len
    → (copy_argument (some (spaced before ws)) >>= λ argument. of_option (collect len [] argument))
      ≡ (if leb (length (words_of ws)) max_words then ok (words_of ws) else fault buffer_overflow)
split_lem ws before is short =
    rw (copy_short (spaced before ws) short, ◌>>=◌) (collect_whole ws before is short)

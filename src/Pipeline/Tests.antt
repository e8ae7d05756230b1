-- ===== src/Pipeline/Tests.antt =====
-- Labs/Lab 7/Lab7.cpp at concrete inputs: uses of the theorems.
use dps912_unix.Base.{
  All, Bytes, List, [], arith, codes, none, ok, pos, refl, some, suc, true, zero, ◌∷◌, ◌≡◌, ℕ,
}
use dps912_unix.Pipeline.{Family, Kernel, main, other, Table}
use dps912_unix.Pipeline.Words.{IsWord, spaced, words_of}
use dps912_unix.Pipeline.Descriptors.{IsPipe}
use dps912_unix.Pipeline.Joined.{IsPipeline, main-IsPipeline}

abbrev ls : List (Bytes × ℕ)
ls = (codes "ls", 1) ∷ (codes "-l", 0) ∷ []

abbrev wc : List (Bytes × ℕ)
wc = (codes "wc", 2) ∷ []

ls-IsWord : All (λ p. IsWord p.0) ls
unfolding IsWord
ls-IsWord = omega arith

wc-IsWord : All (λ p. IsWord p.0) wc
unfolding IsWord
wc-IsWord = omega arith

abbrev descriptors : Table
descriptors zero = some (other 10)
descriptors (suc zero) = some (other 11)
descriptors (suc (suc n)) = none

abbrev kernel : Kernel
kernel = record {
  pipe_fds = some (3, 4);
  first_forks = true;
  second_forks = true;
  waits = pos 77 ∷ [];
}

is_pipe : IsPipe 3 4 descriptors
is_pipe = record { read_free = refl; write_free = refl; apart = λ e. absurd (omega arith) }

main-IsPipeline_example :
    (f : Family) × (main kernel 3 (some (spaced 1 ls)) (some (spaced 0 wc)) descriptors ≡ ok f)
    × IsPipeline (words_of ls) (words_of wc) descriptors f
    × (f.waited ≡ 0)
unfolding spaced
main-IsPipeline_example =
    main-IsPipeline kernel 3 3 4 1 0 ls wc descriptors (other 10) (other 11) (omega arith) ls-IsWord
      wc-IsWord (omega arith) (omega arith) (omega arith) (omega arith) refl is_pipe refl refl refl
      refl

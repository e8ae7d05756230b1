-- ===== src/Pipeline/Words.antt =====
-- Labs/Lab 7/Lab7.cpp, the words of an argument.
use dps912_unix.Base.{
  ==_of_ne, All, Bytes, List, [], ap, map, refl, replicate, some, suc, zero, ◌++◌, ◌∷◌, ◌≡◌, ◌≢◌, ℕ,
}
use dps912_unix.Pipeline.{after_word, next_word, skip_spaces, strtok, word_of}

-- A word: characters other than a space, at least one.
unfoldable pub IsWord : Bytes → Type 0
IsWord [] = ⊥
IsWord (c ∷ cs) = (c ≢ b' ') × All (λ d. d ≢ b' ') cs

-- A line of words: `before` spaces, then each word with the number of spaces that follow it, one more
-- where another word follows.
unfoldable pub spaced : ℕ → List (Bytes × ℕ) → Bytes
spaced before [] = replicate before b' '
spaced before ((word, zero) ∷ []) = replicate before b' ' ++ (word ++ [])
spaced before ((word, suc n) ∷ []) = replicate before b' ' ++ (word ++ b' ' ∷ spaced n [])
spaced before ((word, n) ∷ next ∷ rest) =
    replicate before b' ' ++ (word ++ b' ' ∷ spaced n (next ∷ rest))

abbrev pub words_of : List (Bytes × ℕ) → List Bytes
words_of = map (λ p. p.0)

skip_spaces-replicate :
    (n : ℕ) (text : Bytes) → skip_spaces (replicate n b' ' ++ text) ≡ skip_spaces text
unfolding skip_spaces
skip_spaces-replicate zero text = refl
skip_spaces-replicate (suc n) text = skip_spaces-replicate n text

pub skip_spaces_only : (n : ℕ) → skip_spaces (replicate n b' ') ≡ []
unfolding skip_spaces
skip_spaces_only zero = refl
skip_spaces_only (suc n) = skip_spaces_only n

-- What may follow a word, and what `strtok` leaves of it.
pub data Tail : Bytes → Bytes → Type 0 where
  ends : Tail [] []
  goes_on : (text : Bytes) → Tail (b' ' ∷ text) text

word_of-append :
    (word tail rest : Bytes)
    → All (λ d. d ≢ b' ') word
    → Tail tail rest
    → word_of (word ++ tail) ≡ word
unfolding word_of
word_of-append [] _ _ h ends = refl
word_of-append [] _ _ h (goes_on text) = refl
word_of-append (c ∷ word) tail rest h t =
    rw (==_of_ne c b' ' h.0) (ap (◌∷◌ c) (word_of-append word tail rest h.1 t))

after_word-append :
    (word tail rest : Bytes)
    → All (λ d. d ≢ b' ') word
    → Tail tail rest
    → after_word (word ++ tail) ≡ rest
unfolding after_word
after_word-append [] _ _ h ends = refl
after_word-append [] _ _ h (goes_on text) = refl
after_word-append (c ∷ word) tail rest h t =
    rw (==_of_ne c b' ' h.0) (after_word-append word tail rest h.1 t)

pub strtok_word :
    (before : ℕ) (word tail rest : Bytes)
    → IsWord word
    → Tail tail rest
    → strtok (replicate before b' ' ++ (word ++ tail)) ≡ some (word, rest)
unfolding strtok next_word skip_spaces IsWord
strtok_word before [] tail rest h t = absurd h
strtok_word before (c ∷ word) tail rest h t =
    rw (skip_spaces-replicate before (c ∷ word ++ tail), ==_of_ne c b' ' h.0)
      (rw (word_of-append (c ∷ word) tail rest h t, after_word-append (c ∷ word) tail rest h t)
        refl)

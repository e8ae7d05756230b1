-- ===== src/Pipeline.antt =====
-- Labs/Lab 7/Lab7.cpp: two commands, each given as one argument, joined by a pipe.
-- A process is its table of descriptors; each child's table is computed from the one it inherits up to
-- its `execvp`. What the kernel answers is a `Kernel`.
pub mod Words
pub mod Splitting
pub mod Descriptors
pub mod Joined
mod Tests
use dps912_unix.Base.{
  Bool, Bytes, List, Option, Outcome, [], blocked, buffer_overflow, exit_failure, fault,
  if◌then◌else◌, length, ltb, ltb_ℤ, map, none, null_string, ok, pos, some, suc, zero, ℤ, ◌&&◌,
  ◌++◌, ◌==◌, ◌>>=◌, ◌∷◌, ℕ,
}

abbrev pub len : ℕ
len = 64

abbrev pub max_words : ℕ
max_words = 3

-- `strcpy(argument1, argv[1])`; `argv` ends with a null pointer.
unfoldable pub copy_argument : Option Bytes → Outcome Bytes
copy_argument none = fault null_string
copy_argument (some text) = if ltb (length text) len then ok text else fault buffer_overflow

-- `strtok` with a space: the next word, and what it goes on from.
unfoldable pub skip_spaces : Bytes → Bytes
skip_spaces [] = []
skip_spaces (c ∷ text) = if c == b' ' then skip_spaces text else c ∷ text

unfoldable pub word_of : Bytes → Bytes
word_of [] = []
word_of (c ∷ text) = if c == b' ' then [] else c ∷ word_of text

unfoldable pub after_word : Bytes → Bytes
after_word [] = []
after_word (c ∷ text) = if c == b' ' then text else after_word text

unfoldable pub next_word : Bytes → Option (Bytes × Bytes)
unfolding word_of after_word
next_word [] = none
next_word (c ∷ text) = some (word_of (c ∷ text), after_word (c ∷ text))

unfoldable pub strtok : Bytes → Option (Bytes × Bytes)
unfolding next_word skip_spaces
strtok text = next_word (skip_spaces text)

-- `strcpy(arg1[len1], token)` behind the words that are there.
unfoldable pub store_word : List Bytes → Bytes → Outcome (List Bytes)
store_word words word =
    if ltb (length words) max_words && ltb (length word) len
    then ok (words ++ word ∷ [])
    else fault buffer_overflow

-- The loop over the tokens; `none` if the fuel does not reach its end.
unfoldable pub collect : ℕ → List Bytes → Bytes → Option (Outcome (List Bytes))
unfolding strtok store_word
collect zero words text = none
collect (suc fuel) words text = elim (strtok text) [
  | none ↦ some (ok words)
  | some (word, rest) ↦ elim (store_word words word) [
    | ok more ↦ collect fuel more rest
    | fault e ↦ some (fault e)
  ]
]

-- The array for `execvp`: the words and a null pointer.
unfoldable pub argument_vector : List Bytes → List (Option Bytes)
argument_vector words = map some words ++ none ∷ []

-- What a descriptor is open on.
pub data File : Type 0 where
  pipe_read pipe_write : File
  other : ℕ → File

abbrev pub Table : Type 0
Table = ℕ → Option File

unfoldable pub assign : ℕ → Option File → Table → Table
assign fd file t x = if x == fd then file else t x

-- `dup2` and `close` with the checks of their results; `errorDetection` exits.
unfoldable pub dup2 : ℕ → ℕ → Table → Outcome Table
unfolding assign
dup2 old_fd new_fd t = elim (t old_fd) [
  | none ↦ fault exit_failure
  | some file ↦ ok (assign new_fd (some file) t)
]

unfoldable pub close : ℕ → Table → Outcome Table
unfolding assign
close fd t = elim (t fd) [ none ↦ fault exit_failure | some file ↦ ok (assign fd none t) ]

-- A child before `execvp`: `end` of the pipe takes the place of `standard`.
unfoldable pub redirect : ℕ → ℕ → ℕ → ℕ → Table → Outcome Table
unfolding dup2 close
redirect end standard read_end write_end t =
    if end == standard
    then ok t
    else (dup2 end standard t >>= λ t1. close read_end t1 >>= λ t2. close write_end t2)

pub record Exec : Type 0 where
  pub arguments : List (Option Bytes)
  pub table : Table

pub record Kernel : Type 0 where
  pub pipe_fds : Option (ℕ × ℕ)
  pub first_forks : Bool
  pub second_forks : Bool
  pub waits : List ℤ

-- The loop `while (pid > 0)`: how many children it waits for.
unfoldable pub wait_loop : ℤ → List ℤ → ℕ
wait_loop pid [] = 0
wait_loop pid (result ∷ rest) =
    let more = wait_loop result rest in if ltb_ℤ (pos 0) pid then suc more else 0

-- The parent and its children.
pub record Family : Type 0 where
  pub first : Option (Outcome Exec)
  pub second : Option (Outcome Exec)
  pub parent : Table
  pub waited : ℕ

unfoldable pub exec_with : List Bytes → Outcome Table → Outcome Exec
unfolding argument_vector
exec_with words table = table >>= λ t. ok (record { arguments = argument_vector words; table = t })

-- From `pipe` on. STDIN_FILENO is 0, STDOUT_FILENO 1.
unfoldable pub launch : Kernel → Option (ℕ × ℕ) → List Bytes → List Bytes → Table → Outcome Family
unfolding assign redirect close exec_with wait_loop
launch k none words1 words2 t = fault exit_failure
launch k (some (read_end, write_end)) words1 words2 t =
    let p = assign write_end (some pipe_write) (assign read_end (some pipe_read) t) in
    let first = exec_with words1 (redirect write_end 1 read_end write_end p) in
    let second = exec_with words2 (redirect read_end 0 read_end write_end p) in
    close read_end p >>= λ p1. close write_end p1 >>= λ p2. ok (record {
      first = if k.first_forks then some first else none;
      second = if k.second_forks then some second else none;
      parent = p2;
      waited = wait_loop (pos 0) k.waits;
    })

unfoldable pub of_option : Option (Outcome (List Bytes)) → Outcome (List Bytes)
of_option none = fault blocked
of_option (some o) = o

-- `main` with `argc` and the two arguments; the arguments have fewer than `len` words.
unfoldable pub main : Kernel → ℕ → Option Bytes → Option Bytes → Table → Outcome Family
unfolding copy_argument collect of_option launch
main k argc argv1 argv2 t =
    if ltb argc 2
    then fault exit_failure
    else (copy_argument argv1 >>= λ argument1. copy_argument argv2 >>= λ argument2.
        of_option (collect len [] argument1) >>= λ words1.
        of_option (collect len [] argument2) >>= λ words2. launch k k.pipe_fds words1 words2 t)

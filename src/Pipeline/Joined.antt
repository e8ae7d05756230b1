-- ===== src/Pipeline/Joined.antt =====
-- Labs/Lab 7/Lab7.cpp, the two commands and their parent.
use dps912_unix.Base.{
  fault, null_string, ap, ltb_of_le, All, [], pos, ℤ, ◌<◌, ◌∷◌, ==_of_ne, Bytes, List, Option,
  Outcome, length, none, ok, refl, some, sym, true, ◌>>=◌, ◌∙◌, ◌≡◌, ◌≢◌, ◌≤◌, ℕ,
}
use dps912_unix.Pipeline.{
  copy_argument, len, main, wait_loop, Exec, Family, Kernel, argument_vector, assign, exec_with,
  launch, max_words, pipe_read, pipe_write, redirect, File, Table,
}
use dps912_unix.Pipeline.Words.{IsWord, spaced, words_of}
use dps912_unix.Pipeline.Splitting.{collect_few, copy_short}
use dps912_unix.Pipeline.Descriptors.{
  assign_other, close_both, close_lem, closed, dup2_lem, in_use-free, read_end_open, write_end_open,
  with_pipe, IsPipe,
}

-- Away from its two descriptors a pipe changes nothing.
beside_pipe :
    (read_end write_end standard : ℕ) (file : File) (t : Table) (fd : ℕ)
    → fd ≢ read_end
    → fd ≢ write_end
    → assign standard (some file) (with_pipe read_end write_end t) fd
      ≡ assign standard (some file) t fd
unfolding assign with_pipe
beside_pipe r w standard file t fd not_r not_w = rw (==_of_ne fd w not_w, ==_of_ne fd r not_r) refl

-- A child that puts one end of the pipe in the place of a standard descriptor.
redirect_lem :
    (end standard read_end write_end : ℕ) (t : Table) (file kept : File)
    → IsPipe read_end write_end t
    → t standard ≡ some kept
    → with_pipe read_end write_end t end ≡ some file
    → end ≢ standard
    → (t' : Table) × (redirect end standard read_end write_end (with_pipe read_end write_end t)
        ≡ ok t')
      × ((fd : ℕ) → t' fd ≡ assign standard (some file) t fd)
unfolding redirect
redirect_lem end standard r w t file kept pipe in_use holds apart =
    let not_r = in_use-free standard r t kept in_use pipe.read_free in
    let not_w = in_use-free standard w t kept in_use pipe.write_free in
    let p = with_pipe r w t in
    let t1 = assign standard (some file) p in
    (
      assign w none (assign r none t1),
      rw (==_of_ne end standard apart, dup2_lem end standard p file holds, ◌>>=◌)
          (close_both r w t1 pipe.apart
            (assign_other standard r (some file) p (λ e. not_r (sym e))
              ∙ read_end_open r w t pipe.apart)
            (assign_other standard w (some file) p (λ e. not_w (sym e)) ∙ write_end_open r w t)),
      closed r w (assign standard (some file) t) t1
          (assign_other standard r (some file) t (λ e. not_r (sym e)) ∙ pipe.read_free)
          (assign_other standard w (some file) t (λ e. not_w (sym e)) ∙ pipe.write_free)
          (beside_pipe r w standard file t),
    )

-- A child as it is when it calls `execvp`: its words, and one end of the pipe as a standard descriptor, with
-- all other descriptors as the parent had them before the pipe.
pub Runs : List Bytes → ℕ → File → Table → Option (Outcome Exec) → Type 0
Runs words standard file t child =
    (e : Exec) × (child ≡ some (ok e))
    × (e.arguments ≡ argument_vector words)
    × ((fd : ℕ) → e.table fd ≡ assign standard (some file) t fd)

-- What the program is for, apart from the waiting.
pub IsPipeline : List Bytes → List Bytes → Table → Family → Type 0
IsPipeline words1 words2 t family =
    Runs words1 1 pipe_write t family.first
    × Runs words2 0 pipe_read t family.second
    × ((fd : ℕ) → family.parent fd ≡ t fd)

unchanged : (r w : ℕ) (t : Table) (fd : ℕ) → fd ≢ r → fd ≢ w → with_pipe r w t fd ≡ t fd
unfolding with_pipe
unchanged r w t fd not_r not_w =
    assign_other w fd (some pipe_write) (assign r (some pipe_read) t) not_w
    ∙ assign_other r fd (some pipe_read) t not_r

-- The loop that should wait for the children starts from the process id 0, so it never waits.
never_waits : (results : List ℤ) → wait_loop (pos 0) results ≡ 0
unfolding wait_loop
never_waits [] = refl
never_waits (result ∷ rest) = refl

launch_lem :
    (k : Kernel) (r w : ℕ) (words1 words2 : List Bytes) (t : Table) (input output : File)
    → IsPipe r w t
    → t 0 ≡ some input
    → t 1 ≡ some output
    → k.first_forks ≡ true
    → k.second_forks ≡ true
    → (f : Family) × (launch k (some (r, w)) words1 words2 t ≡ ok f)
      × IsPipeline words1 words2 t f
      × (f.waited ≡ 0)
unfolding launch exec_with IsPipeline Runs
launch_lem k r w words1 words2 t input output pipe stdin stdout fork1 fork2 =
    let (t1, e1, same1) =
      redirect_lem w 1 r w t pipe_write output pipe stdout (write_end_open r w t)
        (λ e. in_use-free 1 w t output stdout pipe.write_free (sym e)) in
    let (t2, e2, same2) =
      redirect_lem r 0 r w t pipe_read input pipe stdin (read_end_open r w t pipe.apart)
        (λ e. in_use-free 0 r t input stdin pipe.read_free (sym e)) in
    let p = with_pipe r w t in
    let p2 = assign w none (assign r none p) in
    let runs1 : Exec = record { arguments = argument_vector words1; table = t1 } in
    let runs2 : Exec = record { arguments = argument_vector words2; table = t2 } in
    let r_open = read_end_open r w t pipe.apart in
    let w_open = assign_other r w none p (λ e. pipe.apart (sym e)) ∙ write_end_open r w t in
    (
      record { first = some (ok runs1); second = some (ok runs2); parent = p2; waited = 0 },
      unfold with_pipe in
          rw (close_lem r p pipe_read r_open, ◌>>=◌)
            (rw (close_lem w (assign r none p) pipe_write w_open, ◌>>=◌)
              (rw (fork1, fork2, e1, e2, ◌>>=◌, never_waits k.waits) refl)),
      (
        (runs1, refl, refl, same1),
        (runs2, refl, refl, same2),
        closed r w t p pipe.read_free pipe.write_free (unchanged r w t),
      ),
      refl,
    )

-- Two lines of fewer than 64 characters and of at most three words each become a pipeline, if
-- descriptors 0 and 1 are in use, the kernel opens the pipe on two free ones, and both forks succeed:
-- the first command runs with its words and with the pipe's write end as standard output, the second
-- with its words and the read end as standard input, all other descriptors of both and all of the
-- parent are as they were before the pipe, and the parent waits for neither.
pub main-IsPipeline :
    (k : Kernel) (argc r w : ℕ) (before1 before2 : ℕ) (ws1 ws2 : List (Bytes × ℕ)) (t : Table)
    (input output : File)
    → 2 ≤ argc
    → All (λ p. IsWord p.0) ws1
    → All (λ p. IsWord p.0) ws2
    → length (spaced before1 ws1) < len
    → length (spaced before2 ws2) < len
    → length (words_of ws1) ≤ max_words
    → length (words_of ws2) ≤ max_words
    → k.pipe_fds ≡ some (r, w)
    → IsPipe r w t
    → t 0 ≡ some input
    → t 1 ≡ some output
    → k.first_forks ≡ true
    → k.second_forks ≡ true
    → (f : Family) × (main k argc (some (spaced before1 ws1)) (some (spaced before2 ws2)) t ≡ ok f)
      × IsPipeline (words_of ws1) (words_of ws2) t f
      × (f.waited ≡ 0)
unfolding main
main-IsPipeline k argc r w before1 before2 ws1 ws2 t input output given is1 is2 short1 short2 few1
      few2 piped pipe stdin stdout fork1 fork2 =
    let (f, e, pipeline, waited) =
      launch_lem k r w (words_of ws1) (words_of ws2) t input output pipe stdin stdout fork1 fork2 in
    (
      f,
      rw
          (
            ltb_of_le argc 2 given,
            copy_short (spaced before1 ws1) short1,
            copy_short (spaced before2 ws2) short2,
            ◌>>=◌,
            collect_few ws1 before1 is1 short1 few1,
            collect_few ws2 before2 is2 short2 few2,
          )
          (ap (λ o. launch k o (words_of ws1) (words_of ws2) t) piped ∙ e),
      pipeline,
      waited,
    )

-- One argument alone, of fewer than 64 characters, passes the test of `argc`, and then the program
-- copies from the null pointer that ends `argv`, whatever the kernel answers.
pub main_one_argument :
    (k : Kernel) (text : Bytes) (t : Table)
    → length text < len
    → main k 2 (some text) none t ≡ fault null_string
unfolding main copy_argument
main_one_argument k text t short = rw (copy_short text short, ◌>>=◌) refl

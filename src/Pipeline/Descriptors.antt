-- ===== src/Pipeline/Descriptors.antt =====
-- Labs/Lab 7/Lab7.cpp, the descriptors of the parent and of its children.
use dps912_unix.Base.{
  ==-eq, Bool-cases, ap, arith, false, inl, inr, sym, true, ◌==◌, ◌>>=◌, ◌∙◌, ==_of_ne, ==_refl,
  Option, none, ok, refl, some, ◌≡◌, ◌≢◌, ℕ,
}
use dps912_unix.Pipeline.{assign, close, dup2, pipe_read, pipe_write, File, Table}

-- The table with a pipe open on two descriptors.
unfoldable pub with_pipe : ℕ → ℕ → Table → Table
with_pipe read_end write_end t =
    assign write_end (some pipe_write) (assign read_end (some pipe_read) t)

-- The kernel opens a pipe on two descriptors that are not in use.
pub record IsPipe (read_end write_end : ℕ) (t : Table) : Type 0 where
  pub read_free : t read_end ≡ none
  pub write_free : t write_end ≡ none
  pub apart : read_end ≢ write_end

assign_same : (fd : ℕ) (file : Option File) (t : Table) → assign fd file t fd ≡ file
unfolding assign
assign_same fd file t = rw (==_refl fd) refl

pub assign_other : (fd x : ℕ) (file : Option File) (t : Table) → x ≢ fd → assign fd file t x ≡ t x
unfolding assign
assign_other fd x file t h = rw (==_of_ne x fd h) refl

pub close_lem :
    (fd : ℕ) (t : Table) (file : File) → t fd ≡ some file → close fd t ≡ ok (assign fd none t)
unfolding close
close_lem fd t file h = rw (close, h) refl

pub dup2_lem :
    (old_fd new_fd : ℕ) (t : Table) (file : File)
    → t old_fd ≡ some file
    → dup2 old_fd new_fd t ≡ ok (assign new_fd (some file) t)
unfolding dup2
dup2_lem old_fd new_fd t file h = rw (dup2, h) refl

-- An open descriptor is none of the pipe's.
pub in_use-free : (a b : ℕ) (t : Table) (kept : File) → t a ≡ some kept → t b ≡ none → a ≢ b
in_use-free a b t kept used free e = let k : some kept ≡ none = sym used ∙ ap t e ∙ free in cc

pub read_end_open :
    (read_end write_end : ℕ) (t : Table)
    → read_end ≢ write_end
    → with_pipe read_end write_end t read_end ≡ some pipe_read
unfolding with_pipe
read_end_open r w t apart =
    assign_other w r (some pipe_write) (assign r (some pipe_read) t) apart
    ∙ assign_same r (some pipe_read) t

pub write_end_open :
    (read_end write_end : ℕ) (t : Table)
    → with_pipe read_end write_end t write_end ≡ some pipe_write
unfolding with_pipe
write_end_open r w t = assign_same w (some pipe_write) (assign r (some pipe_read) t)

-- Both ends closed in a table that has them: as if the pipe had never been there.
pub closed :
    (read_end write_end : ℕ) (t t' : Table)
    → t read_end ≡ none
    → t write_end ≡ none
    → ((fd : ℕ) → fd ≢ read_end → fd ≢ write_end → t' fd ≡ t fd)
    → (fd : ℕ) → assign write_end none (assign read_end none t') fd ≡ t fd
closed r w t t' free_r free_w same fd = elim (Bool-cases (fd == w)) [
  | inl e ↦ unfold assign in rw e (sym (ap t (==-eq fd w e) ∙ free_w))
  | inr n ↦ elim (Bool-cases (fd == r)) [
    | inl e ↦ unfold assign in rw (n, e) (sym (ap t (==-eq fd r e) ∙ free_r))
    | inr m ↦ unfold assign in rw (n, m) (same fd (ne fd r m) (ne fd w n))
  ]
]
  where
    ne : (a b : ℕ) → (a == b) ≡ false → a ≢ b
    ne a b h = λ e. let k : (a == b) ≡ true = ground arith in cc

pub close_both :
    (read_end write_end : ℕ) (t : Table)
    → read_end ≢ write_end
    → t read_end ≡ some pipe_read
    → t write_end ≡ some pipe_write
    → (close read_end t >>= λ t1. close write_end t1)
      ≡ ok (assign write_end none (assign read_end none t))
close_both r w t apart hr hw =
    rw (close_lem r t pipe_read hr, ◌>>=◌)
      (close_lem w (assign r none t) pipe_write (assign_other r w none t (λ e. apart (sym e)) ∙ hw))

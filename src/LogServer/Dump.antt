-- ===== src/LogServer/Dump.antt =====
-- Assignments/A2/LogServer.cpp, `readlevel_log`: what the dump shows of the file.
use dps912_unix.Base.{
  ==_of_ne, Bool-cases, Bytes, List, NulFree, [], ap, arith, exit_failure, fault, if◌then◌else◌,
  inl, inr, none, ok, refl, some, ◌++◌, ◌==◌, ◌∙◌, ◌∷◌, ◌≡◌, ◌≢◌, ℕ,
}
use dps912_unix.LogServer.{before_nul, dump, lines, onto_first, print, read_level_log, Server}

pub concat : List Bytes → Bytes
concat [] = []
concat (l ∷ ls) = l ++ concat ls

concat-onto_first : (c : ℕ) (ls : List Bytes) → concat (onto_first c ls) ≡ c ∷ concat ls
unfolding concat onto_first
concat-onto_first c [] = refl
concat-onto_first c (l ∷ ls) = refl

-- The lines that `getline` returns make up the file, with nothing lost at the seams.
pub concat-lines : (file : Bytes) → concat (lines file) ≡ file
unfolding lines
concat-lines [] = unfold concat in refl
concat-lines (c ∷ cs) =
    ground (arith, concat-lines cs, concat-onto_first c (lines cs), concat_newline (lines cs))
  where
    concat_newline : (ls : List Bytes) → concat ((10 ∷ []) ∷ ls) ≡ 10 ∷ concat ls
    concat_newline ls = unfold concat in refl

-- The text with each newline written twice.
pub doubled : Bytes → Bytes
doubled [] = []
doubled (c ∷ cs) = if c == 10 then 10 ∷ 10 ∷ doubled cs else c ∷ doubled cs

lines_some : (file : Bytes) → (l : Bytes) × (ls : List Bytes) × (lines (file ++ 10 ∷ []) ≡ l ∷ ls)
unfolding lines
lines_some [] = (10 ∷ [], [], refl)
lines_some (c ∷ cs) = elim (Bool-cases (c == 10)) [
  | inl e ↦ (10 ∷ [], lines (cs ++ 10 ∷ []), rw e refl)
  | inr e ↦ let (l, ls, h) = lines_some cs in (c ∷ l, ls, rw (e, h) refl)
]

dump-onto_first :
    (c : ℕ) (l : Bytes) (ls : List Bytes) → c ≢ 0 → dump (onto_first c (l ∷ ls)) ≡ c ∷ dump (l ∷ ls)
unfolding dump onto_first before_nul
dump-onto_first c l ls h = rw (==_of_ne c 0 h)

dump-lines :
    (file : Bytes) → NulFree file → dump (lines (file ++ 10 ∷ [])) ≡ doubled (file ++ 10 ∷ [])
unfolding dump lines doubled before_nul
dump-lines [] h = refl
dump-lines (c ∷ cs) h = elim (Bool-cases (c == 10)) [
  | inl e ↦ rw (e, dump-lines cs h.1) refl
  | inr e ↦
      let (l, ls, k) = lines_some cs in
      let ih : dump (l ∷ ls) ≡ doubled (cs ++ 10 ∷ []) = rw k at (dump-lines cs h.1) in
      rw (e, k) (dump-onto_first c l ls h.0 ∙ ap (◌∷◌ c) ih)
]

-- The dump of a log file whose last line is ended, and which holds no NUL, shows its text with every
-- newline doubled, and changes nothing else.
pub read_level_log_shows :
    (file : Bytes) (s : Server)
    → NulFree file
    → s.log_file ≡ some (file ++ 10 ∷ [])
    → read_level_log s ≡ ok (record s { screen = s.screen ++ doubled (file ++ 10 ∷ []) })
unfolding read_level_log print
read_level_log_shows file s h e = ground (arith, dump-lines file h)

-- Without a log file the server exits.
pub read_level_log_missing :
    (s : Server) → s.log_file ≡ none → read_level_log s ≡ fault exit_failure
unfolding read_level_log
read_level_log_missing s e = ground arith

-- ===== src/ProcReport/Listing.antt =====
-- Labs/Lab 1/LabOne_Watler.cpp, the list that is printed.
use dps912_unix.Base.{
  ◌+◌, Bool, false, ==_of_ne, All-append, ap, append-nil, append_assoc, arith, decimal,
  decimal-IsDigit, find, is_digit_lem, lacks_lem, ltb_ℤ, map, pos, replicate, sym, true, zero,
  ◌>>=◌, ◌∙◌, ◌≢◌, All, Bytes, IsDigit, List, [], codes, if◌then◌else◌, length, ltb, npos, ok, refl,
  some, suc, ◌++◌, ◌<◌, ◌∷◌, ◌≡◌, ◌≤◌, ℕ,
}
use dps912_unix.ProcReport.{
  find_last, is_process, process, report, show_process, status_lines, Report, find_text, is_found,
  read_lines, read_memory, read_name, report_line, starts_with, substr_of, Entry,
}
use dps912_unix.ProcReport.Find.{find_text_missing}
use dps912_unix.ProcReport.Memory.{
  read_memory-padded, stoi-memory_text, substr_tail, memory_text, rss_line,
}

-- A line in which neither search finds anything.
pub record IsOther (save : Bytes) : Type 0 where
  pub nameless : find_text (codes "Name") save ≡ npos
  pub memoryless : find_text (codes "VmRSS") save ≡ npos

read_name_other :
    (save : Bytes) (s : Report) → find_text (codes "Name") save ≡ npos → read_name save s ≡ ok s
unfolding read_name
read_name_other save s h =
    ap
      (λ (m : ℕ).
        let named =
          substr_of save 6 10 >>= λ text. let t : Report = record s { proc_name = text } in ok t in
        if is_found m then named else ok s)
      h
    ∙ unfold is_found in refl

pub read_memory_other :
    (save : Bytes) (s : Report) → find_text (codes "VmRSS") save ≡ npos → read_memory save s ≡ ok s
unfolding read_memory
read_memory_other save s h =
    ap
      (λ (m : ℕ).
        let used = substr_of save (find b' ' save) (find_last b' ' save) >>= λ text.
        let t : Report = record s { used_mem = text } in ok t in
        if is_found m then used else ok s)
      h
    ∙ unfold is_found in refl

pub read_lines_other :
    (others rest : List Bytes) (s : Report)
    → All IsOther others
    → read_lines (others ++ rest) s ≡ read_lines rest s
unfolding read_lines
read_lines_other [] rest s h = refl
read_lines_other (save ∷ others) rest s h =
    ap (λ o. (o >>= read_memory save) >>= λ t. read_lines (others ++ rest) t)
      (read_name_other save s h.0.nameless)
    ∙ ap (λ o. o >>= λ t. read_lines (others ++ rest) t) (read_memory_other save s h.0.memoryless)
    ∙ read_lines_other others rest s h.1

unfoldable pub name_line : Bytes → Bytes
name_line name = codes "Name:" ++ b'\t' ∷ name

-- A process: its status has its name, and later its memory in kB, set to the right with at least one space.
pub record Process : Type 0 where
  pub first : ℕ
  pub more : Bytes
  pub name : Bytes
  pub between : List Bytes
  pub pad : ℕ
  pub memory : ℕ
  pub behind : List Bytes
  pub numbered : IsDigit first
  pub short : length name ≤ 10
  pub distinct : find_text (codes "VmRSS") (name_line name) ≡ npos
  pub others_between : All IsOther between
  pub others_behind : All IsOther behind
  pub padding : pad < 2147483647
  pub is_int : memory < 2147483648

unfoldable pub entry : Process → Entry
unfolding name_line rss_line
entry p = record {
  d_name = p.first ∷ p.more;
  status = some (name_line p.name ∷ p.between ++ rss_line (suc p.pad) p.memory ∷ p.behind);
}

-- What the list shows of it.
unfoldable pub listed : Process → List Bytes
unfolding memory_text
listed p =
    if ltb p.memory 10000
    then []
    else report_line p.name (p.first ∷ p.more) (memory_text (suc p.pad) p.memory) ∷ []

unfoldable pub all_listed : List Process → List Bytes
unfolding listed
all_listed [] = []
all_listed (p ∷ ps) = listed p ++ all_listed ps

pub named :
    (name : Bytes) (s : Report)
    → length name ≤ 10
    → read_name (name_line name) s ≡ ok (record s { proc_name = name })
unfolding read_name name_line find_text starts_with is_found substr_of
named name s h =
    ap (λ o. o >>= λ text. let t : Report = record s { proc_name = text } in ok t)
      (substr_tail (codes "Name:" ++ b'\t' ∷ []) name 10 h)

-- No 'N' in the line with the memory.
pub rss_nameless : (k n : ℕ) → find_text (codes "Name") (rss_line k n) ≡ npos
unfolding rss_line
rss_nameless k n = find_text_missing b'N' (codes "ame") (rss_line k n) (
    All-append Not_n (codes "VmRSS:" ++ b'\t' ∷ [])
      (replicate k b' ' ++ (decimal (pos n) ++ codes " kB"))
      (lacks_lem b'N' (codes "VmRSS:" ++ b'\t' ∷ []) refl)
      (All-append Not_n (replicate k b' ') (decimal (pos n) ++ codes " kB") (spaces k) (
        All-append Not_n (decimal (pos n)) (codes " kB")
          (digits (decimal (pos n)) (decimal-IsDigit n)) (lacks_lem b'N' (codes " kB") refl))))
  where
    Not_n : ℕ → Type 0
    Not_n c = c ≢ b'N'

    spaces : (k : ℕ) → All Not_n (replicate k b' ')
    spaces zero = tt
    spaces (suc k) = ((λ e. absurd (omega arith)), spaces k)

    digits : (s : Bytes) → All IsDigit s → All Not_n s
    digits [] h = tt
    digits (c ∷ s) h = ((λ e. absurd (omega (arith, h.0.below))), digits s h.1)

-- What the lines of a process leave in the two variables, when the line with its memory leaves `memory`.
pub read_status :
    (name : Bytes) (between : List Bytes) (line : Bytes) (behind : List Bytes) (memory : Bytes)
    (s : Report)
    → length name ≤ 10
    → find_text (codes "VmRSS") (name_line name) ≡ npos
    → All IsOther between
    → All IsOther behind
    → find_text (codes "Name") line ≡ npos
    → read_memory line (record s { proc_name = name })
      ≡ ok (record s { proc_name = name; used_mem = memory })
    → read_lines (name_line name ∷ between ++ line ∷ behind) s
      ≡ ok (record s { proc_name = name; used_mem = memory })
unfolding read_lines
read_status name between line behind memory s short distinct others_between others_behind nameless
      kept =
    let t = record s { proc_name = name } in
    let u = record t { used_mem = memory } in
    let rest = between ++ line ∷ behind in
    ap (λ o. (o >>= read_memory (name_line name)) >>= λ t. read_lines rest t) (named name s short)
    ∙ ap (λ o. o >>= λ t. read_lines rest t) (read_memory_other (name_line name) t distinct)
    ∙ read_lines_other between (line ∷ behind) t others_between
    ∙ ap (λ o. (o >>= read_memory line) >>= λ t. read_lines behind t)
        (read_name_other line t nameless)
    ∙ ap (λ o. o >>= λ t. read_lines behind t) kept
    ∙ ap (λ l. read_lines l u) (sym (append-nil behind))
    ∙ read_lines_other behind [] u others_behind

pub is_process_lem : (c : ℕ) (more : Bytes) → IsDigit c → is_process (c ∷ more) ≡ true
unfolding is_process
is_process_lem c more h =
    rw (==_of_ne c b'.' (λ e. absurd (omega (arith, h.above))), is_digit_lem c h) refl

pub process-entry :
    (p : Process) (s : Report)
    → process (entry p) s
      ≡ ok (record s {
        proc_name = p.name;
        used_mem = memory_text (suc p.pad) p.memory;
        screen = s.screen ++ listed p;
      })
unfolding process show_process listed entry status_lines
process-entry p s =
    let u = record s { proc_name = p.name; used_mem = memory_text (suc p.pad) p.memory } in
    let shown = read_lines (status_lines (entry p).status) s >>= show_process (p.first ∷ p.more) in
    ap (λ b. if b then shown else ok s) (is_process_lem p.first p.more p.numbered)
    ∙ ap (λ o. o >>= show_process (p.first ∷ p.more))
        (read_status p.name p.between (rss_line (suc p.pad) p.memory) p.behind
          (memory_text (suc p.pad) p.memory) s p.short p.distinct p.others_between p.others_behind
          (rss_nameless (suc p.pad) p.memory)
          (read_memory-padded p.pad p.memory (record s { proc_name = p.name })
            (omega (arith, p.padding)) p.is_int))
    ∙ ap
        (λ o. o >>= λ memory.
          let t : Report = record u {
            screen = u.screen ++ report_line u.proc_name (p.first ∷ p.more) u.used_mem ∷ [];
          } in
          ok (if ltb_ℤ memory (pos 10000) then u else t))
        (stoi-memory_text (suc p.pad) p.memory p.is_int)
    ∙ ap (λ (m : ℕ). ok (if ltb m 10000 then after s.screen else after (s.screen ++ line ∷ [])))
        plain
    ∙ kept (ltb p.memory 10000)
  where
    line : Bytes
    line = report_line p.name (p.first ∷ p.more) (memory_text (suc p.pad) p.memory)

    plain : p.memory + 0 ≡ p.memory
    plain = omega arith

    after : List Bytes → Report
    after texts = record s {
      proc_name = p.name;
      used_mem = memory_text (suc p.pad) p.memory;
      screen = texts;
    }

    kept :
        (b : Bool)
        → ok (if b then after s.screen else after (s.screen ++ line ∷ []))
          ≡ ok (after (s.screen ++ (if b then [] else line ∷ [])))
    kept true = ap (λ texts. ok (after texts)) (sym (append-nil s.screen))
    kept false = refl

-- For processes whose status has a name of at most ten characters and, behind it, a memory that is set to
-- the right with spaces, with whatever other lines between and behind them, the program prints exactly those
-- that use 10000 kB or more, in the directory's order, each with its own name, number and memory.
pub report_lists :
    (ps : List Process) (s : Report)
    → (t : Report) × (report (map entry ps) s ≡ ok t) × (t.screen ≡ s.screen ++ all_listed ps)
unfolding report all_listed
report_lists [] s = (s, refl, sym (append-nil s.screen))
report_lists (p ∷ ps) s =
    let u = record s {
      proc_name = p.name;
      used_mem = memory_text (suc p.pad) p.memory;
      screen = s.screen ++ listed p;
    } in
    let (t, result, screen) = report_lists ps u in
    (
      t,
      ap (λ o. o >>= λ t. report (map entry ps) t) (process-entry p s) ∙ result,
      screen ∙ append_assoc s.screen (listed p) (all_listed ps),
    )

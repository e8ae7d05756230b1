-- ===== src/ProcReport/Stale.antt =====
-- Labs/Lab 1/LabOne_Watler.cpp, the processes whose memory the program does not read.
use dps912_unix.Base.{
  append-nil, arith, ltb_of_le, ltb_ℤ, pos, sym, ◌+◌, ◌<◌, List, Outcome, [], ap, codes, digits_of,
  fault, if◌then◌else◌, invalid_argument, is_digit, is_space, ok, refl, skip_white, some, suc, ◌++◌,
  ◌>>=◌, ◌∙◌, ◌∷◌, ◌≡◌, ◌≤◌, ℕ,
}
use dps912_unix.ProcReport.{
  read_memory, Report, process, read_lines, report, report_line, show_process, status_lines, stoi,
  stoi_digits, stoi_from, Entry,
}
use dps912_unix.ProcReport.Memory.{stoi-memory_text, memory_text, read_memory-unpadded, rss_line}
use dps912_unix.ProcReport.Listing.{
  named, process-entry, read_lines_other, read_memory_other, entry, is_process_lem, listed,
  name_line, read_status, rss_nameless, Process,
}

report-append :
    (es fs : List Entry) (s : Report) → report (es ++ fs) s ≡ (report es s >>= λ t. report fs t)
unfolding report
report-append [] fs s = refl
report-append (e ∷ es) fs s = onward (λ t. report-append es fs t) (process e s)
  where
    onward :
        ((t : Report) → report (es ++ fs) t ≡ (report es t >>= λ u. report fs u))
        → (o : Outcome Report)
        → (o >>= λ t. report (es ++ fs) t) ≡ ((o >>= λ t. report es t) >>= λ u. report fs u)
    onward ih (fault reason) = refl
    onward ih (ok t) = ih t

-- The same process when its number fills the column, so that no space is in front of it.
unfoldable pub full_column : Process → Entry
full_column p = record {
  d_name = p.first ∷ p.more;
  status = some (name_line p.name ∷ p.between ++ rss_line 0 p.memory ∷ p.behind);
}

-- A process whose memory is written without a space in front of it, as proc(5) does from eight digits on,
-- ends the program by an uncaught exception once the program has got through what is listed before, whatever
-- that is, and whatever is listed behind.
pub full_column_throws :
    (before : List Entry) (p : Process) (behind : List Entry) (s t : Report)
    → report before s ≡ ok t
    → report (before ++ full_column p ∷ behind) s ≡ fault invalid_argument
unfolding report process full_column status_lines show_process
full_column_throws before p behind s t result =
    let shown =
      read_lines (name_line p.name ∷ p.between ++ rss_line 0 p.memory ∷ p.behind) t
      >>= show_process (p.first ∷ p.more) in
    report-append before (full_column p ∷ behind) s
    ∙ ap (λ o. o >>= λ t. report (full_column p ∷ behind) t) result
    ∙ ap (λ b. (if b then shown else ok t) >>= λ u. report behind u)
        (is_process_lem p.first p.more p.numbered)
    ∙ ap (λ o. (o >>= show_process (p.first ∷ p.more)) >>= λ u. report behind u)
        (read_status p.name p.between (rss_line 0 p.memory) p.behind (codes " kB") t p.short
          p.distinct p.others_between p.others_behind (rss_nameless 0 p.memory)
          (read_memory-unpadded p.memory (record t { proc_name = p.name }) p.is_int))
    ∙ unfold stoi skip_white is_space stoi_from stoi_digits digits_of is_digit in refl

-- A process without a memory, as a kernel thread is.
unfoldable pub memoryless : Process → Entry
memoryless p = record { d_name = p.first ∷ p.more; status = some (name_line p.name ∷ p.between) }

memoryless_shown :
    (q : Process) (k n : ℕ) (s : Report)
    → s.used_mem ≡ memory_text k n
    → n < 2147483648
    → 10000 ≤ n
    → process (memoryless q) s
      ≡ ok (record s {
        proc_name = q.name;
        screen = s.screen ++ report_line q.name (q.first ∷ q.more) s.used_mem ∷ [];
      })
unfolding process memoryless status_lines show_process read_lines
memoryless_shown q k n s used small large =
    let t = record s { proc_name = q.name } in
    let id = q.first ∷ q.more in
    let u : Report = record t { screen = t.screen ++ report_line q.name id t.used_mem ∷ [] } in
    let shown = read_lines (name_line q.name ∷ q.between) s >>= show_process id in
    ap (λ b. if b then shown else ok s) (is_process_lem q.first q.more q.numbered)
    ∙ ap
        (λ o.
          ((o >>= read_memory (name_line q.name)) >>= λ t. read_lines q.between t)
          >>= show_process id)
        (named q.name s q.short)
    ∙ ap (λ o. (o >>= λ t. read_lines q.between t) >>= show_process id)
        (read_memory_other (name_line q.name) t q.distinct)
    ∙ ap (λ l. read_lines l t >>= show_process id) (sym (append-nil q.between))
    ∙ ap (λ o. o >>= show_process id) (read_lines_other q.between [] t q.others_between)
    ∙ ap (λ o. o >>= λ memory. ok (if ltb_ℤ memory (pos 10000) then t else u))
        (ap stoi used ∙ stoi-memory_text k n small)
    ∙ ap (λ b. ok (if b then t else u)) (ltb_of_le (n + 0) (10000 + 0) (omega arith))

-- A process without a memory is listed with the memory of the one before it, if that is large enough.
pub memoryless_stale :
    (p q : Process) (s : Report)
    → 10000 ≤ p.memory
    → report (entry p ∷ memoryless q ∷ []) s
      ≡ ok (record s {
        proc_name = q.name;
        used_mem = memory_text (suc p.pad) p.memory;
        screen =
            (s.screen
              ++ report_line p.name (p.first ∷ p.more) (memory_text (suc p.pad) p.memory) ∷ [])
            ++ report_line q.name (q.first ∷ q.more) (memory_text (suc p.pad) p.memory) ∷ [];
      })
unfolding report listed
memoryless_stale p q s large =
    let u = record s {
      proc_name = p.name;
      used_mem = memory_text (suc p.pad) p.memory;
      screen =
          s.screen ++ report_line p.name (p.first ∷ p.more) (memory_text (suc p.pad) p.memory) ∷ [];
    } in
    let line = report_line p.name (p.first ∷ p.more) (memory_text (suc p.pad) p.memory) in
    ap (λ o. o >>= λ t. report (memoryless q ∷ []) t)
      (process-entry p s
        ∙ ap (λ b. ok (record u { screen = s.screen ++ (if b then [] else line ∷ []) }))
            (ltb_of_le p.memory 10000 large))
    ∙ ap (λ o. o >>= λ t. report [] t)
        (memoryless_shown q (suc p.pad) p.memory u refl p.is_int large)

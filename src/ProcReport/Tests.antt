-- ===== src/ProcReport/Tests.antt =====
-- Labs/Lab 1/LabOne_Watler.cpp at concrete inputs: uses of the theorems.
use dps912_unix.Base.{
  List, digits_of, find, is_digit, is_space, number, skip_white, some, [], arith, codes, decimal,
  digits_onto, fault, invalid_argument, map, ok, refl, ◌++◌, ◌∷◌, ◌≡◌,
}
use dps912_unix.ProcReport.{
  Entry, find_last, is_found, is_process, process, read_lines, read_memory, read_name, show_process,
  status_lines, stoi, stoi_digits, stoi_from, substr_of, Report, find_text, report, report_line,
  starts_with,
}
use dps912_unix.ProcReport.Listing.{name_line, all_listed, entry, report_lists, Process}
use dps912_unix.ProcReport.Memory.{rss_line, memory_text}
use dps912_unix.ProcReport.Stale.{full_column_throws, memoryless, memoryless_stale, full_column}

abbrev init : Process
init = record {
  first = b'1';
  more = [];
  name = codes "systemd";
  between = codes "State:" ∷ [];
  pad = 2;
  memory = 12345;
  behind = [];
  numbered = record { above = omega arith; below = omega arith };
  short = omega arith;
  distinct = unfold name_line find_text starts_with in refl;
  others_between = (
    record {
      nameless = unfold find_text starts_with in refl;
      memoryless = unfold find_text starts_with in refl;
    },
    tt,
  );
  others_behind = tt;
  padding = omega arith;
  is_int = omega arith;
}

abbrev small : Process
small = record init { more = b'7' ∷ []; memory = 900; is_int = omega arith }

abbrev start : Report
start = record { proc_name = []; used_mem = []; screen = [] }

report_lists_example :
    (t : Report) × (report (map entry (init ∷ small ∷ [])) start ≡ ok t)
    × (t.screen ≡ all_listed (init ∷ small ∷ []))
report_lists_example = report_lists (init ∷ small ∷ []) start

-- Behind an entry that is no process, a process, and one without a memory.
abbrev before_init : List Entry
before_init =
    (record { d_name = codes "."; status = some [] }) ∷ entry small ∷ memoryless small ∷ []

full_column_throws_example :
    report (before_init ++ full_column init ∷ []) start ≡ fault invalid_argument
unfolding report process read_lines read_name read_memory find_text starts_with is_found substr_of
    find find_last entry memoryless name_line rss_line memory_text show_process stoi skip_white
    is_space stoi_from stoi_digits digits_of is_digit is_process status_lines number decimal
    digits_onto
full_column_throws_example = full_column_throws before_init init [] start _ refl

memoryless_stale_example :
    report (entry init ∷ memoryless small ∷ []) start
    ≡ ok (record {
      proc_name = codes "systemd";
      used_mem = memory_text 3 12345;
      screen =
          report_line (codes "systemd") (codes "1") (memory_text 3 12345)
          ∷ report_line (codes "systemd") (codes "17") (memory_text 3 12345)
          ∷ [];
    })
memoryless_stale_example = memoryless_stale init small start (omega arith)

line_test : memory_text 3 12345 ≡ codes "   12345 kB"
unfolding memory_text decimal digits_onto
line_test = refl

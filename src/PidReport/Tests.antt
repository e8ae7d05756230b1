-- ===== src/PidReport/Tests.antt =====
-- Labs/Lab 2/LabTwo_Watler.cpp at concrete inputs: uses of the theorems.
use dps912_unix.Base.{
  Bytes, [], codes, decimal, digits_onto, if◌then◌else◌, negsuc, pos, ℤ, ◌==◌, ◌∷◌, ◌≡◌, ℕ,
}
use dps912_unix.PidReport.{main, PidUtil}
use dps912_unix.PidReport.Reports.{
  last_lines, left_name, line_if, lines_of, listed, main_report, report_of,
}

abbrev names : ℤ → ℕ × Bytes
names (pos n) = if n == 1 then (0, codes "systemd") else (4, [])
names (negsuc n) = (4, [])

abbrev util : PidUtil
util = record {
  get_all_pids = λ old. (0, pos 1 ∷ pos 7 ∷ []);
  get_name_by_pid = λ pid old. names pid;
  get_pid_by_name = λ name old. (5, pos 0);
  get_error_msg = λ status. codes "no such process";
}

main_report_example :
    (main util).screen
    ≡ (codes "PID: 1 Name: systemd")
      ∷ (codes "PID: 1 Name: systemd")
      ∷ (codes "The name does not exist.")
      ∷ (codes "The error is as follows: no such process")
      ∷ []
unfolding report_of listed lines_of left_name line_if last_lines decimal digits_onto
main_report_example = main_report util

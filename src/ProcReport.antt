-- ===== src/ProcReport.antt =====
-- Labs/Lab 1/LabOne_Watler.cpp: the processes that use 10000 kB of memory or more.
-- The directory /proc is a list of entries, each with the lines of its status file, if that opens. A line is
-- an `std::string`; `file` is cleared by each `open` that succeeds.
pub mod Find
pub mod Memory
pub mod Listing
pub mod Stale
mod Tests
use dps912_unix.Base.{
  Bool, Bytes, List, Option, Outcome, [], codes, digits_of, drop, exit_failure, false, fault, find,
  if◌then◌else◌, invalid_argument, is_digit, leb, length, ltb_ℤ, negative, none, not, npos, number,
  ok, out_of_range, pos, skip_white, some, suc, take, true, ℤ, ◌%◌, ◌&&◌, ◌++◌, ◌==◌, ◌>>=◌, ◌^◌,
  ◌||◌, ◌∷◌, ℕ,
}

pub record Entry : Type 0 where
  pub d_name : Bytes
  pub status : Option (List Bytes)

-- The variables that live as long as the program, and what was printed.
pub record Report : Type 0 where
  pub proc_name : Bytes
  pub used_mem : Bytes
  pub screen : List Bytes

unfoldable pub starts_with : Bytes → Bytes → Bool
starts_with [] text = true
starts_with (n ∷ needle) [] = false
starts_with (n ∷ needle) (c ∷ text) = n == c && starts_with needle text

-- `text.find(needle)` of a needle that is not empty.
unfoldable pub find_text : Bytes → Bytes → ℕ
unfolding starts_with
find_text needle [] = npos
find_text needle (c ∷ text) =
    let rest = find_text needle text in
    if starts_with needle (c ∷ text) then 0 else if rest == npos then npos else suc rest

-- `text.find_last_of(" ")`.
unfoldable pub find_last : ℕ → Bytes → ℕ
find_last c [] = npos
find_last c (d ∷ text) =
    let rest = find_last c text in if rest == npos then (if d == c then 0 else npos) else suc rest

-- `text.substr(start, count)`.
unfoldable pub substr_of : Bytes → ℕ → ℕ → Outcome Bytes
substr_of text start count =
    if leb start (length text) then ok (take count (drop start text)) else fault out_of_range

-- Whether a position, as an `int`, is not -1.
unfoldable pub is_found : ℕ → Bool
is_found position = not (position % 2 ^ 32 == 4294967295)

unfoldable pub stoi_digits : Bool → Bytes → Outcome ℤ
unfolding number
stoi_digits minus [] = fault invalid_argument
stoi_digits false (c ∷ ds) =
    let n = number 0 (c ∷ ds) in if leb n 2147483647 then ok (pos n) else fault out_of_range
stoi_digits true (c ∷ ds) =
    let n = number 0 (c ∷ ds) in if leb n 2147483648 then ok (negative n) else fault out_of_range

unfoldable pub stoi_from : Bytes → Outcome ℤ
unfolding stoi_digits digits_of
stoi_from [] = fault invalid_argument
stoi_from (c ∷ text) =
    if c == b'-'
    then stoi_digits true (digits_of text)
    else if c == b'+'
    then stoi_digits false (digits_of text)
    else stoi_digits false (digits_of (c ∷ text))

unfoldable pub stoi : Bytes → Outcome ℤ
unfolding stoi_from skip_white
stoi text = stoi_from (skip_white text)

unfoldable pub read_name : Bytes → Report → Outcome Report
unfolding find_text is_found substr_of
read_name save s =
    let named =
      substr_of save 6 10 >>= λ text. let t : Report = record s { proc_name = text } in ok t in
    if is_found (find_text (codes "Name") save) then named else ok s

unfoldable pub read_memory : Bytes → Report → Outcome Report
unfolding find_text is_found substr_of find_last find
read_memory save s =
    let used = substr_of save (find b' ' save) (find_last b' ' save) >>= λ text.
    let t : Report = record s { used_mem = text } in ok t in
    if is_found (find_text (codes "VmRSS") save) then used else ok s

-- The inner loop, over the lines of the file.
unfoldable pub read_lines : List Bytes → Report → Outcome Report
unfolding read_name read_memory
read_lines [] s = ok s
read_lines (save ∷ lines) s = (read_name save s >>= read_memory save) >>= λ t. read_lines lines t

abbrev pub report_line : Bytes → Bytes → Bytes → Bytes
report_line name id memory =
    codes "Process Name: "
    ++ name
    ++ codes "   Process ID: "
    ++ id
    ++ codes "   Memory Used: "
    ++ memory

unfoldable pub show_process : Bytes → Report → Outcome Report
unfolding stoi
show_process proc_id s = stoi s.used_mem >>= λ memory.
    let t : Report = record s {
      screen = s.screen ++ report_line s.proc_name proc_id s.used_mem ∷ [];
    } in
    ok (if ltb_ℤ memory (pos 10000) then s else t)

unfoldable pub is_process : Bytes → Bool
unfolding is_digit
is_process [] = false
is_process (c ∷ name) = not (c == b'.' || not (is_digit c))

unfoldable pub status_lines : Option (List Bytes) → List Bytes
status_lines none = []
status_lines (some lines) = lines

-- A pass of the outer loop.
unfoldable pub process : Entry → Report → Outcome Report
unfolding show_process read_lines status_lines is_process
process e s =
    let shown = read_lines (status_lines e.status) s >>= show_process e.d_name in
    if is_process e.d_name then shown else ok s

unfoldable pub report : List Entry → Report → Outcome Report
unfolding process
report [] s = ok s
report (e ∷ entries) s = process e s >>= λ t. report entries t

-- With no directory the program is left by `exit(1)`.
unfoldable pub main : Option (List Entry) → Outcome Report
unfolding report
main none = fault exit_failure
main (some entries) = report entries (record { proc_name = []; used_mem = []; screen = [] })

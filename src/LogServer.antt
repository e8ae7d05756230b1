-- ===== src/LogServer.antt =====
-- Assignments/A2/LogServer.cpp: the server that writes the log and sets its clients' filter level.
-- The globals, the log file, the terminal and the standard input are one record. The menu of `main`,
-- the receive thread and the signal handler interleave by whole rounds.
pub mod LogFile
pub mod Commands
pub mod Menu
pub mod Dump
pub mod Start
mod Tests
use dps912_unix.Datagrams.{Arrival, cleared, recv_into, recv_sender, recv_size, Address}
use dps912_unix.Base.{
  Bool, Bytes, List, Option, Outcome, [], c_string, codes, decimal, exit_failure, false, fault,
  if◌then◌else◌, length, ltb_ℤ, negsuc, none, null_file, ok, pos, some, store, suc, take, true,
  uninitialised, zero, ℤ, ◌++◌, ◌+◌, ◌==◌, ◌>>=◌, ◌∷◌, ℕ,
}

-- What `cin >> user_choice` meets: a number that fits an `int`, one that is above or below all of these, or
-- something else.
pub data Word : Type 0 where
  number : ℤ → Word
  above : Word
  below : Word
  other : Word

pub record Server : Type 0 where
  pub buf : Bytes
  pub is_working : Bool
  pub input_working : Bool
  pub client_address : Address
  pub locked : Bool
  pub blocked : Bool
  pub log_file : Option Bytes  -- /tmp/fileLog, if it is there
  pub writable : Bool  -- whether `fopen(f_path, "a")` is allowed
  pub cin : List Word
  pub cin_failed : Bool
  pub indeterminate : ℕ → ℤ  -- what `user_choice` holds, at each read that stores nothing
  pub screen : Bytes
  pub sent : List (Address × Bytes)

-- Text on `cout`, and a line with `endl`.
unfoldable pub print : Bytes → Server → Server
print text s = record s { screen = s.screen ++ text }

unfoldable pub print_line : Bytes → Server → Server
unfolding print
print_line text s = print (text ++ 10 ∷ []) s

-- A read that stores nothing: the variable holds what happens to be in its place.
unfoldable pub unstored : Server → ℤ × Server
unstored s = (
  s.indeterminate 0,
  record s { cin_failed = true; indeterminate = λ n. s.indeterminate (n + 1) },
)

extract : List Word → Server → ℤ × Server
unfolding unstored
extract [] s = unstored s
extract (number n ∷ words) s = (n, record s { cin = words })
extract (above ∷ words) s = (pos 2147483647, record s { cin = words; cin_failed = true })
extract (below ∷ words) s = (negsuc 2147483647, record s { cin = words; cin_failed = true })
extract (other ∷ words) s = (pos 0, record s { cin_failed = true })

-- `int user_choice; cin >> user_choice;`: a number that does not fit stores the nearest that does, a word that
-- is no number stores 0, and both stop the stream; a stream that has stopped or ended stores nothing.
unfoldable pub read_int : Server → ℤ × Server
unfolding extract unstored
read_int s = if s.cin_failed then unstored s else extract s.cin s

abbrev pub level_text : Bytes → Bytes
level_text level = codes "Setting Log to Level=" ++ level

unfoldable pub send_level_log : Bytes → Server → Outcome Server
unfolding print_line
send_level_log level s = do
  buf ← store cleared (level_text level ++ 0 ∷ [])
  let length_sent = length (level_text level) + 1
  text ← c_string buf
  let t = print_line (codes "Sending to Client: " ++ text) (record s { buf = buf })
  ok (record t { sent = t.sent ++ (t.client_address, take length_sent buf) ∷ [] })

-- The `switch` of `setlevel_log`.
unfoldable pub level_choice : ℤ → Server → Outcome Server
unfolding print_line
level_choice (negsuc n) s = ok (
    print_line
      (codes " The user choice was invalid! Please choose between 0, 1, 2, 3, 4 for a valid entry.")
      s)
level_choice (pos n) s =
    if n == 0
    then ok (print_line (codes "Return to Main Menu") s)
    else if n == 1
    then send_level_log (codes "DEBUG") s
    else if n == 2
    then send_level_log (codes "WARNING") s
    else if n == 3
    then send_level_log (codes "ERROR") s
    else if n == 4
    then send_level_log (codes "CRITICAL") s
    else ok (
        print_line
          (codes
            " The user choice was invalid! Please choose between 0, 1, 2, 3, 4 for a valid entry.")
          s)

unfoldable pub level_menu : Server → Server
unfolding print print_line
level_menu s = print (codes " User Choice: ") (
    print_line (codes "0. Return to Main Menu") (
      print_line (codes "4. CRITICAL") (
        print_line (codes "3. ERROR") (
          print_line (codes "2. WARNING") (
            print_line (codes "1. DEBUG")
              (print_line (codes "Please select from one of the options below:") s))))))

unfoldable pub set_level_log : Server → Outcome Server
set_level_log s = let (choice, t) = read_int (level_menu s) in level_choice choice t

-- `getline` until the end of the file: each line with its newline.
pub onto_first : ℕ → List Bytes → List Bytes
onto_first c [] = (c ∷ []) ∷ []
onto_first c (l ∷ ls) = (c ∷ l) ∷ ls

unfoldable pub lines : Bytes → List Bytes
unfolding onto_first
lines [] = []
lines (c ∷ cs) = if c == 10 then (10 ∷ []) ∷ lines cs else onto_first c (lines cs)

-- `cout << line`, which stops at a NUL.
unfoldable pub before_nul : Bytes → Bytes
before_nul [] = []
before_nul (c ∷ cs) = if c == 0 then [] else c ∷ before_nul cs

unfoldable pub dump : List Bytes → Bytes
dump [] = []
dump (line ∷ rest) = before_nul line ++ 10 ∷ dump rest

read_file : Option Bytes → Server → Outcome Server
read_file none s = fault exit_failure
read_file (some file) s = ok (print (dump (lines file)) s)

unfoldable pub read_level_log : Server → Outcome Server
unfolding read_file
read_level_log s = read_file s.log_file s

unfoldable pub shut_level_log : Server → Server
unfolding print_line
shut_level_log s = record (print_line (codes "The system is shutting down!") s) {
  is_working = false;
  input_working = false;
}

-- The `switch` of `main`.
unfoldable pub menu_choice : ℤ → Server → Outcome Server
unfolding print_line shut_level_log
menu_choice (negsuc n) s =
    ok (print_line (codes "The user choice was invalid! Please choose between 0, 1, 2") s)
menu_choice (pos n) s =
    if n == 1
    then set_level_log s
    else if n == 2
    then read_level_log s
    else if n == 0
    then ok (shut_level_log s)
    else ok (print_line (codes "The user choice was invalid! Please choose between 0, 1, 2") s)

unfoldable pub main_menu : Server → Server
unfolding print print_line
main_menu s = print (codes "Input: ") (
    print_line (codes "0. Shutdown") (
      print_line (codes "2. Dump the log file here") (
        print_line (codes "1. Set Log Level") (
          print_line (codes " ----- Please Select an Option ----- ")
            (print_line (codes " ========== Logging Server ========== ") s)))))

-- A pass through the loop of `main`.
unfoldable pub menu_round : Server → Outcome Server
menu_round s = let (choice, t) = read_int (main_menu s) in menu_choice choice t

-- The loop, on fuel; `none` means that the fuel ran out.
unfoldable pub main_loop : ℕ → Server → Option (Outcome Server)
main_loop zero s = none
main_loop (suc fuel) s = elim s.input_working [
  | true ↦ elim (menu_round s) [ ok t ↦ main_loop fuel t | fault f ↦ some (fault f) ]
  | false ↦ some (ok s)
]

-- `sigHandler`; SIGINT is 2 and SIGTSTP is 20.
unfoldable pub sig_handler : ℕ → Server → Server
unfolding print_line
sig_handler signal s =
    if signal == 2
    then record (print_line (codes " The CTRL-C Signal has been received!") s) {
      is_working = false;
      input_working = false;
    }
    else if signal == 20
    then print_line (codes " The CTRL-Z Signal has been received!") s
    else print_line (codes " Encountered a undefined signal!") s

-- `fopen(f_path, "a")` makes the file if it is not there; the first part says whether it succeeds.
unfoldable pub contents : Option Bytes → Bytes
contents none = []
contents (some file) = file

unfoldable pub open_append : Server → Bool × Server
unfolding contents
open_append s =
    if s.writable then (true, record s { log_file = some (contents s.log_file) }) else (false, s)

-- `fprintf(log_file, "%s", …)` and `fclose(log_file)` on the stream or on NULL.
unfoldable pub append_file : Bool → Bytes → Server → Outcome Server
unfolding contents
append_file false text s = fault null_file
append_file true text s = ok (record s { log_file = some (contents s.log_file ++ text) })

unfoldable pub close_file : Bool → Server → Outcome Server
close_file false s = fault null_file
close_file true s = ok s

-- `recvfrom` and the writing, with the file opened or not.
unfoldable pub write_arrival : Bool → Arrival → Server → Outcome Server
unfolding append_file close_file print_line
write_arrival file a s = do
  let t = record s { buf = recv_into a s.buf; client_address = recv_sender a s.client_address }
  message ← c_string t.buf
  let u = print_line (decimal (recv_size a)) t
  v ← if ltb_ℤ (pos 0) (recv_size a) then append_file file message u else ok u
  w ← close_file file v
  ok (record w { locked = false })

-- The part of a round in which the thread holds the mutex.
unfoldable pub log_arrival : Arrival → Server → Outcome Server
unfolding open_append
log_arrival a s = let (file, t) = open_append s in write_arrival file a t

-- A round of `receiveThread`.
unfoldable pub receive_round : Arrival → Server → Outcome Server
receive_round a s =
    let t = record s { buf = cleared } in
    if t.locked
    then ok (record t { blocked = true })
    else log_arrival a (record t { locked = true })

-- A step of the process; the menu and the receive thread step only while their loops run.
pub data Event : Type 0 where
  menu : Event
  round : Arrival → Event
  interrupt : ℕ → Event

unfoldable pub step : Event → Server → Outcome Server
step menu s = if s.input_working then menu_round s else ok s
step (round a) s = if s.blocked then ok s else if s.is_working then receive_round a s else ok s
step (interrupt signal) s = ok (sig_handler signal s)

unfoldable pub run : List Event → Server → Outcome Server
run [] s = ok s
run (e ∷ es) s = step e s >>= λ t. run es t

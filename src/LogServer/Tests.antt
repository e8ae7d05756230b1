-- ===== src/LogServer/Tests.antt =====
-- Assignments/A2/LogServer.cpp at concrete inputs: tests of the definitions, and uses of the theorems.
use dps912_unix.Datagrams.{cleared, datagram, nothing, server, terminated, Address}
use dps912_unix.Base.{
  Bool-cases, inl, inr, if◌then◌else◌, is_zero, none, ℕ, ◌==◌, Bytes, List, Option, Outcome, [],
  arith, c_string, codes, false, map, negsuc, ok, pos, refl, some, store, true, ◌++◌, ◌∷◌, ◌≡◌,
}
use dps912_unix.LogServer.{
  Word, before_nul, contents, dump, level_choice, level_menu, lines, main_loop, main_menu,
  menu_choice, menu_round, number, other, read_int, read_level_log, round, run, send_level_log,
  set_level_log, Server,
}
use dps912_unix.LogServer.LogFile.{IsReady, Brings, silence, idle, entry, log_file_grows}
use dps912_unix.LogServer.Menu.{main_loop_forever, Spins}
use dps912_unix.LogServer.Dump.{read_level_log_shows, doubled}

-- A server that waits at its menu, with the words that its user will type.
abbrev started : List Word → Server
started words = record {
  buf = cleared;
  is_working = true;
  input_working = true;
  client_address = server;
  locked = false;
  blocked = false;
  log_file = some (codes "old" ++ 10 ∷ []);
  writable = true;
  cin = words;
  indeterminate = λ n. pos 0;
  cin_failed = false;
  screen = [];
  sent = [];
}

abbrev new_line : Bytes
new_line = codes "new" ++ 10 ∷ []

arrived : Brings (nothing ∷ datagram server (new_line ++ 0 ∷ []) ∷ []) new_line
arrived = idle (
    entry server (new_line ++ 0 ∷ []) new_line (terminated _ _ [] refl (omega arith) (omega arith))
      silence)

log_file_grows_example :
    (t : Server) × (run
        (map round (nothing ∷ datagram server (new_line ++ 0 ∷ []) ∷ []))
        (started [])
      ≡ ok t)
    × IsReady t
    × (contents t.log_file ≡ contents (started []).log_file ++ new_line)
log_file_grows_example =
    log_file_grows (started []) arrived
      (record { working = refl; unlocked = refl; unblocked = refl; allowed = refl })

abbrev typed : List Word
typed = number (pos 1) ∷ number (pos 3) ∷ number (pos 2) ∷ number (negsuc 4) ∷ other ∷ []

-- The session that those words make: ERROR is sent, the file is shown, and the word that is no number
-- shuts the server down.
session : Option (Outcome Server)
unfolding main_loop menu_round main_menu read_int menu_choice set_level_log level_menu level_choice
    send_level_log store c_string read_level_log lines before_nul dump
session = main_loop 7 (started typed)

after_session : Option (Outcome Server) → List (Address × Bytes)
after_session (some (ok t)) = t.sent
after_session _ = []

session_sends : after_session session ≡ (server, codes "Setting Log to Level=ERROR" ++ 0 ∷ []) ∷ []
unfolding session after_session
session_sends = refl

-- The input has ended, and `user_choice` holds 1 and then always 7.
abbrev spinning : Server
spinning = record (started []) {
  cin_failed = true;
  indeterminate = λ n. if n == 0 then pos 1 else pos 7;
}

spinning-Spins : Spins spinning
spinning-Spins = record {
  ended = refl;
  goes_on = refl;
  file = codes "old" ++ 10 ∷ [];
  there = refl;
  nonzero = nonzero;
}
  where
    nonzero : (n : ℕ) → is_zero (spinning.indeterminate n) ≡ false
    nonzero n = elim (Bool-cases (n == 0)) [ inl e ↦ rw e refl | inr e ↦ rw e refl ]

main_loop_forever_example : main_loop 5 spinning ≡ none
main_loop_forever_example = main_loop_forever 5 spinning spinning-Spins

read_level_log_shows_example :
    read_level_log (started [])
    ≡ ok (record (started []) { screen = (started []).screen ++ doubled (codes "old" ++ 10 ∷ []) })
read_level_log_shows_example = read_level_log_shows (codes "old") (started []) (omega arith) refl

-- ===== src/LogServer/Commands.antt =====
-- Assignments/A2/LogServer.cpp, `sendlevel_log` and the `switch` of `setlevel_log`.
use dps912_unix.Datagrams.{buf_len, cleared}
use dps912_unix.Base.{
  Bytes, NulFree, [], arith, c_string-append, codes, drop, length, negsuc, ok, pos, refl,
  store_text, suc, take_terminated, zero, ℤ, ◌++◌, ◌+◌, ◌<◌, ◌>>=◌, ◌∷◌, ◌≡◌,
}
use dps912_unix.LogServer.{level_choice, level_text, print_line, send_level_log, Server}

-- The state after a level was sent.
abbrev pub level_sent : Bytes → Server → Server
level_sent level s = record s {
  buf = level_text level ++ 0 ∷ drop (length (level_text level) + 1) cleared;
  screen = s.screen ++ ((codes "Sending to Client: " ++ level_text level) ++ 10 ∷ []);
  sent = s.sent ++ (s.client_address, level_text level ++ 0 ∷ []) ∷ [];
}

-- A level's name fits the buffer with the text before it.
pub send_level_log_lem :
    (level : Bytes) (s : Server)
    → NulFree (level_text level)
    → length (level_text level) < buf_len
    → send_level_log level s ≡ ok (level_sent level s)
unfolding send_level_log
send_level_log_lem level s free fits =
    rw (store_text cleared (level_text level) fits, ◌>>=◌)
      (rw (c_string-append (level_text level) _ free, ◌>>=◌)
        (rw (take_terminated (level_text level) (drop (length (level_text level) + 1) cleared))
          refl))

-- What the loop of `main` depends on is the same in two states.
pub record Keeps (s t : Server) : Type 0 where
  pub same_cin : t.cin ≡ s.cin
  pub same_failed : t.cin_failed ≡ s.cin_failed
  pub same_working : t.is_working ≡ s.is_working
  pub same_input : t.input_working ≡ s.input_working
  pub same_file : t.log_file ≡ s.log_file
  pub same_places : t.indeterminate ≡ s.indeterminate

level_sent_lem :
    (level : Bytes) (s : Server)
    → NulFree (level_text level)
    → length (level_text level) < buf_len
    → (t : Server) × (send_level_log level s ≡ ok t) × Keeps s t
level_sent_lem level s free fits = (
  level_sent level s,
  send_level_log_lem level s free fits,
  record {
    same_cin = refl;
    same_failed = refl;
    same_working = refl;
    same_input = refl;
    same_file = refl;
    same_places = refl;
  },
)

pub level_choice_total : (n : ℤ) (s : Server) → (t : Server) × (level_choice n s ≡ ok t) × Keeps s t
unfolding level_choice
level_choice_total (negsuc n) s = (
  _,
  refl,
  record {
    same_cin = refl;
    same_failed = refl;
    same_working = refl;
    same_input = refl;
    same_file = refl;
    same_places = refl;
  },
)
level_choice_total (pos zero) s = (
  _,
  refl,
  record {
    same_cin = refl;
    same_failed = refl;
    same_working = refl;
    same_input = refl;
    same_file = refl;
    same_places = refl;
  },
)
level_choice_total (pos (suc zero)) s = level_sent_lem (codes "DEBUG") s (omega arith) (omega arith)
level_choice_total (pos (suc (suc zero))) s =
    level_sent_lem (codes "WARNING") s (omega arith) (omega arith)
level_choice_total (pos (suc (suc (suc zero)))) s =
    level_sent_lem (codes "ERROR") s (omega arith) (omega arith)
level_choice_total (pos (suc (suc (suc (suc zero))))) s =
    level_sent_lem (codes "CRITICAL") s (omega arith) (omega arith)
level_choice_total (pos (suc (suc (suc (suc (suc n)))))) s = (
  print_line
      (codes " The user choice was invalid! Please choose between 0, 1, 2, 3, 4 for a valid entry.")
      s,
  ground arith,
  record {
    same_cin = refl;
    same_failed = refl;
    same_working = refl;
    same_input = refl;
    same_file = refl;
    same_places = refl;
  },
)

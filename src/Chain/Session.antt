-- ===== src/Chain/Session.antt =====
-- Assignments/A2, a whole session at the menu of LogServer.cpp and a Logger.cpp that gets its datagrams.
use dps912_unix.Logger
use dps912_unix.Base.{
  append-nil, append_assoc, arith, length, map, set, some, suc, sym, true, ◌+◌, Bytes, List, [], ap,
  false, ok, pos, refl, ◌++◌, ◌>>=◌, ◌∙◌, ◌∷◌, ◌≡◌, ℕ,
}
use dps912_unix.Chain.{command_of_level, level_sent, name, commanded, set_level_log-number, choice}
use dps912_unix.LogServer.Start.{main-main_loop}
use dps912_unix.LogServer
use dps912_unix.LogServer.{
  main_loop, shut_level_log, number, Word, level_menu, level_text, main_menu, menu_choice,
  menu_round, print, print_line, Server,
}
use dps912_unix.LogServer.Menu.{main_loop_next, main_loop_stops, read_int-number}
use dps912_unix.Datagrams.{datagram, terminated, Address}
use dps912_unix.Logger.{Logger, LogLevel}

-- What a user types who sets these levels and then shuts the server down.
unfoldable pub typed : List LogLevel → List Word
typed [] = number (pos 0) ∷ []
typed (level ∷ levels) = number (pos 1) ∷ number (pos (choice level)) ∷ typed levels

unfoldable pub payload : LogLevel → Bytes
payload level = level_text (name level) ++ 0 ∷ []

-- The filter after the commands for some levels.
unfoldable pub last_commanded : LogLevel → List LogLevel → LogLevel
last_commanded level [] = level
last_commanded level (next ∷ levels) = last_commanded (commanded next) levels

-- A pass of the menu for one level.
set_round :
    (level : LogLevel) (rest : List Word) (s : Server)
    → s.cin_failed ≡ false
    → s.cin ≡ number (pos 1) ∷ number (pos (choice level)) ∷ rest
    → (t : Server) × (menu_round s ≡ ok t)
      × (t.cin ≡ rest)
      × (t.cin_failed ≡ false)
      × (t.input_working ≡ s.input_working)
      × (t.client_address ≡ s.client_address)
      × (t.sent ≡ s.sent ++ (s.client_address, payload level) ∷ [])
unfolding menu_round menu_choice main_menu level_menu print print_line payload
set_round level rest s works e =
    let words = number (pos (choice level)) ∷ rest in
    let u = record (main_menu s) { cin = words } in
    (
      level_sent (name level) (record (level_menu u) { cin = rest }),
      ap (λ p. menu_choice p.0 p.1) (read_int-number (pos 1) words (main_menu s) works e)
          ∙ set_level_log-number level rest u works refl,
      refl,
      works,
      refl,
      refl,
      refl,
    )

-- The last pass.
shut_round :
    (s : Server)
    → s.cin_failed ≡ false
    → s.cin ≡ number (pos 0) ∷ []
    → (t : Server) × (menu_round s ≡ ok t)
      × (t.input_working ≡ false)
      × (t.is_working ≡ false)
      × (t.sent ≡ s.sent)
unfolding menu_round menu_choice main_menu print print_line shut_level_log
shut_round s works e = (
  shut_level_log (record (main_menu s) { cin = [] }),
  ap (λ p. menu_choice p.0 p.1) (read_int-number (pos 0) [] (main_menu s) works e),
  refl,
  refl,
  refl,
)

-- A session at the menu.
session_sends :
    (levels : List LogLevel) (s : Server)
    → s.input_working ≡ true
    → s.cin_failed ≡ false
    → s.cin ≡ typed levels
    → (t : Server) × (main_loop (length levels + 2) s ≡ some (ok t))
      × (t.input_working ≡ false)
      × (t.is_working ≡ false)
      × (t.sent ≡ s.sent ++ map (λ level. (s.client_address, payload level)) levels)
unfolding typed
session_sends [] s runs works e =
    let (t, passed, stops, ends, sent) = shut_round s works e in
    (
      t,
      main_loop_next 1 s t runs passed ∙ main_loop_stops 0 t stops,
      stops,
      ends,
      sent ∙ sym (append-nil s.sent),
    )
session_sends (level ∷ levels) s runs works e =
    let (u, passed, cin, fine, input, client, sent) = set_round level (typed levels) s works e in
    let (t, result, stops, ends, all_sent) = session_sends levels u (input ∙ runs) fine cin in
    let count : length (level ∷ levels) + 2 ≡ suc (length levels + 2) = omega arith in
    (
      t,
      ap (λ (fuel : ℕ). main_loop fuel s) count
          ∙ main_loop_next (length levels + 2) s u runs passed
          ∙ result,
      stops,
      ends,
      all_sent
          ∙ (λ i. sent i ++ map (λ level. (client i, payload level)) levels)
          ∙ append_assoc s.sent ((s.client_address, payload level) ∷ []) _,
    )

-- A ready logger that gets a command.
command_heard :
    (level : LogLevel) (l : Logger) (from : Address)
    → Logger.Receiver.IsReady l
    → (l' : Logger) × (Logger.step (Logger.round (datagram from (payload level))) l ≡ ok l')
      × Logger.Receiver.IsReady l'
      × (l'.level_log ≡ commanded level)
unfolding payload
command_heard level l from ready =
    let (free, fits, stat, rung) = command_of_level level in
    Logger.Receiver.command-IsReady from (payload level) _ _ (commanded level) l ready
      (terminated (payload level) (level_text (name level)) [] refl free fits) (omega arith) stat
      rung

commands_heard :
    (levels : List LogLevel) (l : Logger) (from : Address)
    → Logger.Receiver.IsReady l
    → (l' : Logger) × (Logger.run
          (map (λ level. Logger.round (datagram from (payload level))) levels)
          l
        ≡ ok l')
      × Logger.Receiver.IsReady l'
      × (l'.level_log ≡ last_commanded l.level_log levels)
unfolding Logger.run last_commanded
commands_heard [] l from ready = (l, refl, ready, refl)
commands_heard (level ∷ levels) l from ready =
    let (k, heard, kept, set) = command_heard level l from ready in
    let (l', result, still, last) = commands_heard levels k from kept in
    (
      l',
      ap
            (λ o.
              o >>= Logger.run (map (λ level. Logger.round (datagram from (payload level))) levels))
            heard
          ∙ result,
      still,
      last ∙ ap (λ now. last_commanded now levels) set,
    )

-- When the server can bind its socket, whoever sets levels at its menu and then shuts it down ends both of
-- its loops, after one pass for each level and one more; one datagram for each level has gone to the last
-- client, in order; and a ready logger that gets these datagrams goes through them without fault, is ready
-- again, and has the filter CRITICAL if the last choice was CRITICAL, DEBUG after any other, and its old
-- filter if there was none.
pub session_reaches_logger :
    (fd bound : ℕ) (levels : List LogLevel) (s : Server) (l : Logger) (from : Address)
    → s.input_working ≡ true
    → s.cin_failed ≡ false
    → s.cin ≡ typed levels
    → Logger.Receiver.IsReady l
    → (t : Server) × (l' : Logger) × (LogServer.Start.main
          (pos fd)
          (pos bound)
          (length levels + 2)
          s
        ≡ some (ok t))
      × (t.input_working ≡ false)
      × (t.is_working ≡ false)
      × (t.sent ≡ s.sent ++ map (λ level. (s.client_address, payload level)) levels)
      × (Logger.run (map (λ level. Logger.round (datagram from (payload level))) levels) l ≡ ok l')
      × Logger.Receiver.IsReady l'
      × (l'.level_log ≡ last_commanded l.level_log levels)
session_reaches_logger fd bound levels s l from runs works e ready =
    let (t, ended, stops, ends, sent) = session_sends levels s runs works e in
    let (l', heard, kept, last) = commands_heard levels l from ready in
    (
      t,
      l',
      main-main_loop fd bound (length levels + 2) s ∙ ended,
      stops,
      ends,
      sent,
      heard,
      kept,
      last,
    )

-- ===== src/Chain.antt =====
-- Assignments/A2/Logger.cpp and Assignments/A2/LogServer.cpp together: a log entry on its way from
-- `Log` to the log file, and a level on its way from the server's menu to the logger's filter.
pub mod Session
mod Tests
use dps912_unix.Datagrams.{Carries, buf_len, datagram, terminated, Address}
use dps912_unix.Base.{
  ◌>>=◌, ◌∙◌, List, decimal-NulFree, false, pos, NulFree-append, find, string_ge, substr, Bytes,
  NulFree, [], arith, length, ok, refl, some, true, ◌++◌, ◌<◌, ◌∷◌, ◌≡◌, ◌≢◌, ℕ,
}
use dps912_unix.Logger
use dps912_unix.LogServer
use dps912_unix.Logger.{
  stat_of, critical, debug, error, warning, Logger, LogCall, LogLevel, log_text, log, level_of_stat,
}
use dps912_unix.LogServer.{
  send_level_log, level_text, Server, Word, number, level_menu, read_int, level_choice,
  set_level_log,
}
use dps912_unix.Logger.Filter.{Passes, entry, name, below, log-Passes, sends}
use dps912_unix.LogServer.Menu.{read_int-number}
use dps912_unix.LogServer.Commands.{send_level_log_lem, level_sent}
use dps912_unix.LogServer.LogFile.{datagram-Logs}

-- What a caller hands to `Log` are C strings.
pub record IsText (dt : Bytes) (c : LogCall) : Type 0 where
  pub date : NulFree dt
  pub program : NulFree c.prog
  pub function : NulFree c.func
  pub content : NulFree c.message

name-NulFree : (level : LogLevel) → NulFree (name level)
unfolding name
name-NulFree debug = omega arith
name-NulFree warning = omega arith
name-NulFree error = omega arith
name-NulFree critical = omega arith

NulFree_join : (s t : Bytes) (c : ℕ) → c ≢ 0 → NulFree s → NulFree t → NulFree (s ++ c ∷ t)
NulFree_join s t c h hs ht = NulFree-append s (c ∷ t) hs (h, ht)

entry-NulFree : (dt : Bytes) (c : LogCall) → IsText dt c → NulFree (entry dt c)
unfolding log_text
entry-NulFree dt c text =
    NulFree_join _ _ 10 (omega arith)
      (NulFree_join _ _ b' ' (omega arith)
        (NulFree_join _ _ b':' (omega arith)
          (NulFree_join _ _ b':' (omega arith)
            (NulFree_join _ _ b' ' (omega arith)
              (NulFree_join dt (name (below c.level)) b' ' (omega arith) text.date
                (name-NulFree (below c.level)))
              text.program)
            text.function)
          (decimal-NulFree c.line))
        text.content)
      tt

-- An entry that passes the filter and fits the buffer goes out in one datagram, and a ready server that
-- gets it adds exactly the entry to its log file.
pub entry_reaches_log :
    (dt : Bytes) (c : LogCall) (l : Logger) (s : Server) (from : Address)
    → Passes l.level_log c.level
    → length (entry dt c) < buf_len
    → IsText dt c
    → l.fd_open ≡ true
    → LogServer.LogFile.IsReady s
    → (l' : Logger) × (payload : Bytes) × (t : Server) × (log dt c l ≡ ok l')
      × (l'.sent ≡ l.sent ++ (l.server_address, payload) ∷ [])
      × (LogServer.step (LogServer.round (datagram from payload)) s ≡ ok t)
      × (t.log_file ≡ some (LogServer.contents s.log_file ++ entry dt c))
entry_reaches_log dt c l s from passes fits text fd ready =
    let payload : Bytes = entry dt c ++ 0 ∷ [] in
    let carries : Carries payload (entry dt c) =
      terminated payload (entry dt c) [] refl (entry-NulFree dt c text) fits in
    let (t, e, r, f) = datagram-Logs from payload (entry dt c) s carries ready in
    (sends (entry dt c) l, payload, t, log-Passes dt c l passes fits, rw fd refl, e, f)

-- The server's choice for each level, and what the loggers make of it.
pub choice : LogLevel → ℕ
choice Logger.debug = 1
choice Logger.warning = 2
choice Logger.error = 3
choice Logger.critical = 4

pub commanded : LogLevel → LogLevel
commanded Logger.critical = Logger.critical
commanded _ = Logger.debug

-- The text that the server sends for a level has the level's name behind its only `=`, and the
-- logger's ladder takes all names but "CRITICAL" for DEBUG.
pub command_of_level :
    (level : LogLevel)
    → NulFree (level_text (name level))
      × (length (level_text (name level)) < buf_len)
      × (stat_of (level_text (name level)) ≡ ok (name level))
      × (level_of_stat (name level) ≡ some (commanded level))
unfolding name commanded stat_of level_of_stat find substr string_ge
command_of_level Logger.debug = (omega arith, omega arith, refl, refl)
command_of_level Logger.warning = (omega arith, omega arith, refl, refl)
command_of_level Logger.error = (omega arith, omega arith, refl, refl)
command_of_level Logger.critical = (omega arith, omega arith, refl, refl)

level_choice_level :
    (level : LogLevel) (s : Server)
    → level_choice (pos (choice level)) s ≡ send_level_log (name level) s
unfolding level_choice choice name
level_choice_level Logger.debug s = refl
level_choice_level Logger.warning s = refl
level_choice_level Logger.error s = refl
level_choice_level Logger.critical s = refl

pub set_level_log-number :
    (level : LogLevel) (words : List Word) (s : Server)
    → s.cin_failed ≡ false
    → s.cin ≡ number (pos (choice level)) ∷ words
    → set_level_log s ≡ ok (level_sent (name level) (record (level_menu s) { cin = words }))
unfolding set_level_log
set_level_log-number level words s works e =
    let (free, fits, stat, rung) = command_of_level level in
    let asked : (level_menu s).cin ≡ number (pos (choice level)) ∷ words = unfold level_menu in e in
    rw
      (read_int-number (pos (choice level)) words (level_menu s) (unfold level_menu in works) asked)
      (level_choice_level level _ ∙ send_level_log_lem (name level) _ free fits)

-- A level chosen at the server's menu goes to the last client in one datagram, and a ready logger that
-- gets it has the filter CRITICAL if that was the choice, and DEBUG on any other choice.
pub level_reaches_logger :
    (level : LogLevel) (words : List Word) (s : Server) (l : Logger) (from : Address)
    → s.cin_failed ≡ false
    → s.cin ≡ number (pos (choice level)) ∷ words
    → Logger.Receiver.IsReady l
    → (t : Server) × (payload : Bytes) × (l' : Logger) × (set_level_log s ≡ ok t)
      × (t.sent ≡ s.sent ++ (s.client_address, payload) ∷ [])
      × (Logger.step (Logger.round (datagram from payload)) l ≡ ok l')
      × Logger.Receiver.IsReady l'
      × (l'.level_log ≡ commanded level)
level_reaches_logger level words s l from works e ready =
    let (free, fits, stat, rung) = command_of_level level in
    let payload : Bytes = level_text (name level) ++ 0 ∷ [] in
    let carries : Carries payload (level_text (name level)) =
      terminated payload (level_text (name level)) [] refl free fits in
    let (l', e', r, v) =
      Logger.Receiver.command-IsReady from payload _ _ (commanded level) l ready carries
        (omega arith) stat rung in
    (
      level_sent (name level) (record (level_menu s) { cin = words }),
      payload,
      l',
      set_level_log-number level words s works e,
      unfold level_menu in refl,
      e',
      r,
      v,
    )

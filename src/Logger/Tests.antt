-- ===== src/Logger/Tests.antt =====
-- Assignments/A2/Logger.cpp at concrete inputs: tests of the definitions, and uses of the theorems.
use dps912_unix.Datagrams.{Carries, buf_len, cleared, datagram, nothing, server, terminated}
use dps912_unix.Logger
use dps912_unix.Base.{
  Bytes, [], arith, buffer_overflow, codes, decimal, drop, fault, find, if◌then◌else◌, length, ltb,
  ltb_ℤ, map, ok, pos, refl, store, string_ge, substr, ◌++◌, ◌+◌, ◌<◌, ◌∷◌, ◌≡◌,
}
use dps912_unix.Logger.{
  LogCall, clear_buf, critical, debug, error, initialize_log, level_of_stat, level_str, log,
  log_print, log_send, log_text, receive_round, round, run, stat_of, value, Logger,
}
use dps912_unix.Logger.Filter.{Passes, entry, sends, log_lem}
use dps912_unix.Logger.Receiver.{
  IsReady, Hears, from_debug, silence, idle, command, receiver_takes, unrecognised_deafens,
}

abbrev date : Bytes
date = codes "Mon Mar 1 10:00:00 2021" ++ 10 ∷ []

abbrev failure : LogCall
failure = record {
  level = critical;
  prog = codes "travel";
  func = codes "main";
  line = pos 42;
  message = codes "no fuel";
}

abbrev warned : Bytes
warned = codes "Setting Log to Level=WARNING" ++ 0 ∷ []

abbrev garbled : Bytes
garbled = codes "Level=ALL" ++ 0 ∷ []

initial-IsReady : IsReady initialize_log
unfolding initialize_log
initial-IsReady = record { working = refl; unlocked = refl; unblocked = refl }

failure_text : entry date failure ≡ date ++ codes " ERROR travel:main:42 no fuel" ++ 10 ∷ []
unfolding log_text decimal Logger.Filter.name Logger.Filter.below
failure_text = refl

log_sends_one :
    log date failure initialize_log
    ≡ ok (record initialize_log {
      buf = entry date failure ++ 0 ∷ drop (length (entry date failure) + 1) cleared;
      sent = (server, entry date failure ++ 0 ∷ []) ∷ [];
    })
unfolding log log_print log_send level_str value initialize_log log_text store decimal
    Logger.Filter.name Logger.Filter.below
log_sends_one = refl

log_lem_example : log date (record failure { level = debug }) initialize_log ≡ (
    if ltb_ℤ (value initialize_log.level_log) (value debug)
    then (if ltb (length (entry date (record failure { level = debug }))) buf_len
        then ok (sends (entry date (record failure { level = debug })) initialize_log)
        else fault buffer_overflow)
    else ok initialize_log)
log_lem_example = log_lem date (record failure { level = debug }) initialize_log

warned-Carries : Carries warned (codes "Setting Log to Level=WARNING")
warned-Carries = terminated _ _ [] refl (omega arith) (omega arith)

garbled-Carries : Carries garbled (codes "Level=ALL")
garbled-Carries = terminated _ _ [] refl (omega arith) (omega arith)

heard_warning : Hears (nothing ∷ datagram server warned ∷ []) error debug
unfolding stat_of find substr string_ge
heard_warning = idle (
    command server warned (codes "Setting Log to Level=WARNING") (codes "WARNING") debug
      warned-Carries (omega arith) refl (from_debug refl) silence)

receiver_takes_example :
    (t : Logger) × (run (map round (nothing ∷ datagram server warned ∷ [])) initialize_log ≡ ok t)
    × IsReady t
    × (t.level_log ≡ debug)
unfolding initialize_log
receiver_takes_example = receiver_takes initialize_log heard_warning initial-IsReady refl

unrecognised_deafens_example :
    (t : Logger) × (run
        (map round (datagram server garbled ∷ datagram server warned ∷ []))
        initialize_log
      ≡ ok t)
    × (t.level_log ≡ initialize_log.level_log)
unfolding stat_of find substr level_of_stat string_ge
unrecognised_deafens_example =
    unrecognised_deafens server garbled (codes "Level=ALL") (codes "ALL")
      (datagram server warned ∷ []) initialize_log initial-IsReady garbled-Carries (omega arith)
      refl refl

failure-Passes : Passes initialize_log.level_log critical
unfolding initialize_log value
failure-Passes = refl

failure_fits : length (entry date failure) < buf_len
failure_fits = rw failure_text (omega arith)

-- ===== src/Chain/Tests.antt =====
-- Assignments/A2 at concrete inputs: uses of the theorems on both programs together.
use dps912_unix.Datagrams.{cleared, datagram, server}
use dps912_unix.Base.{
  map, Bytes, [], arith, codes, decimal, false, none, ok, pos, refl, some, true, ◌++◌, ◌∷◌, ◌≡◌,
}
use dps912_unix.Logger
use dps912_unix.LogServer
use dps912_unix.Logger.{Logger, LogCall, initialize_log, log_text, log, value}
use dps912_unix.LogServer.{Server, number, set_level_log}
use dps912_unix.Logger.Filter.{entry}
use dps912_unix.Chain.{entry_reaches_log}
use dps912_unix.Chain.Session.{session_reaches_logger, typed, payload, last_commanded}
use dps912_unix.LogServer.{main_loop}

abbrev date : Bytes
date = codes "Mon Mar 1 10:00:00 2021" ++ 10 ∷ []

abbrev failure : LogCall
failure = record {
  level = Logger.critical;
  prog = codes "travel";
  func = codes "main";
  line = pos 42;
  message = codes "no fuel";
}

abbrev waiting : Server
waiting = record {
  buf = cleared;
  is_working = true;
  input_working = true;
  client_address = server;
  locked = false;
  blocked = false;
  log_file = none;
  writable = true;
  cin = number (pos 2) ∷ [];
  cin_failed = false;
  indeterminate = λ n. pos 0;
  screen = [];
  sent = [];
}

entry_reaches_log_example :
    (l' : Logger) × (payload : Bytes) × (t : Server) × (log date failure initialize_log ≡ ok l')
    × (l'.sent ≡ initialize_log.sent ++ (initialize_log.server_address, payload) ∷ [])
    × (LogServer.step (LogServer.round (datagram server payload)) waiting ≡ ok t)
    × (t.log_file ≡ some (LogServer.contents waiting.log_file ++ entry date failure))
unfolding initialize_log value log_text decimal Logger.Filter.name Logger.Filter.below
entry_reaches_log_example =
    entry_reaches_log date failure initialize_log waiting server refl (omega arith)
      (record {
        date = omega arith;
        program = omega arith;
        function = omega arith;
        content = omega arith;
      })
      refl (record { working = refl; unlocked = refl; unblocked = refl; allowed = refl })

-- At the end the filter is DEBUG again, for the WARNING that was asked for last.
session_reaches_logger_example :
    (t : Server) × (l' : Logger) × (LogServer.Start.main
        (pos 3)
        (pos 0)
        4
        (record waiting { cin = typed (Logger.critical ∷ Logger.warning ∷ []) })
      ≡ some (ok t))
    × (t.input_working ≡ false)
    × (t.is_working ≡ false)
    × (t.sent ≡ (server, payload Logger.critical) ∷ (server, payload Logger.warning) ∷ [])
    × (Logger.run
          (map
            (λ level. Logger.round (datagram server (payload level)))
            (Logger.critical ∷ Logger.warning ∷ []))
          initialize_log
        ≡ ok l')
    × Logger.Receiver.IsReady l'
    × (l'.level_log ≡ Logger.debug)
unfolding initialize_log last_commanded dps912_unix.Chain.commanded
session_reaches_logger_example =
    session_reaches_logger 3 0 (Logger.critical ∷ Logger.warning ∷ [])
      (record waiting { cin = typed (Logger.critical ∷ Logger.warning ∷ []) }) initialize_log server
      refl refl refl (record { working = refl; unlocked = refl; unblocked = refl })

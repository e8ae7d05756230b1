-- ===== src/StatLogger/Tests.antt =====
-- Labs/Lab 5/intfMonitor_solution.cpp at concrete inputs: uses of the theorems.
use dps912_unix.Base.{
  Bool, [], arith, codes, ok, pos, refl, replicate, some, take, true, ◌++◌, ◌∷◌, ◌≡◌,
}
use dps912_unix.StatLogger.{Counters, Phase, gather, looping, max_buf, Logger}
use dps912_unix.StatLogger.Passes.{HasInts, counter_at, gather_fits, line_of}

abbrev logger_in : Phase → Bool → Logger
logger_in p running = record {
  interface = take max_buf (codes "ens33" ++ replicate max_buf 0);
  is_running = running;
  phase = p;
  log_open = true;
  log = [];
  screen = [];
}

abbrev counters : Counters
counters path = some (pos 1500)

gather_fits_example :
    gather counters (logger_in looping true)
    ≡ ok (record (logger_in looping true) { log = [] ++ line_of counters (codes "ens33") ∷ [] })
gather_fits_example =
    gather_fits counters (codes "ens33") (logger_in looping true) (omega arith) (omega arith) refl
      refl (unfold HasInts counter_at in λ counter. omega arith)

-- ===== src/SystemMonitor/Tests.antt =====
-- Labs/Lab 5/sysmonExec.cpp at concrete inputs: uses of the theorems.
use dps912_unix.Base.{
  [], arith, codes, decimal, digits_onto, false, inr, negsuc, none, ok, pos, refl, replicate, some,
  suc, take, true, zero, ℤ, ◌++◌, ◌∷◌, ◌≡◌, ℕ,
}
use dps912_unix.SystemMonitor.{Killed, Monitor, delivered, finished_line, here, main, tag, System}
use dps912_unix.SystemMonitor.Signalling.{start_text, stop_text, waited, main_signals}
use dps912_unix.SystemMonitor.Forks.{child_falls_through, failed_fork_signals, Got}
use dps912_unix.SystemMonitor.Watched.{signals_to, watched_logs, weave, Watches}
use dps912_unix.StatLogger.Passes.{HasInts, line_of, counter_at}
use dps912_unix.StatLogger.{Counters, ended, max_buf, paused, run, Logger}

abbrev forks : ℕ → ℤ
forks zero = pos 101
forks (suc i) = pos 102

abbrev os : System
os = record {
  self = pos 100;
  fork = forks;
  execlp = λ interface. none;
  kill = λ pid signal. delivered (pid ∷ []);
  ended = (pos 102, pos 0) ∷ (pos 101, pos 0) ∷ [];
}

main_signals_example :
    (t : Monitor) × (main os ≡ here t)
    × (t.got ≡ (pos 101, 10) ∷ (pos 102, 10) ∷ (pos 101, 12) ∷ (pos 102, 12) ∷ [])
    × (t.screen
        ≡ codes "parent:main: pid:100"
          ∷ codes "SIGUSR1 has sent start signals to the childen: 101"
          ∷ codes "SIGUSR1 has sent start signals to the childen: 102"
          ∷ codes "SIGUSR1 has sent stop signals to the childen: 101"
          ∷ codes "SIGUSR1 has sent stop signals to the childen: 102"
          ∷ codes "parent:systemMonitor: status:0. The child pid:102 has finished"
          ∷ codes "parent:systemMonitor: status:0. The child pid:101 has finished"
          ∷ codes "parent:systemMonitor: status:0. The child pid:-1 has finished"
          ∷ codes "parent:main(100): Finished!"
          ∷ [])
unfolding start_text stop_text waited tag finished_line decimal digits_onto
main_signals_example =
    main_signals os (pos 101) (pos 102) (pos 101 ∷ []) (pos 102 ∷ []) refl refl refl refl refl refl
      refl refl

abbrev few_forks : ℕ → ℤ
few_forks zero = pos 101
few_forks (suc i) = negsuc 0

abbrev all_users : ℤ → ℕ → Killed
all_users (pos n) signal = delivered (pos n ∷ [])
all_users (negsuc n) signal = delivered (pos 50 ∷ pos 101 ∷ [])

abbrev full : System
full = record os { fork = few_forks; kill = all_users }

failed_fork_signals_example :
    (t : Monitor) × (main full ≡ here t) × Got (pos 50) 10 t.got × Got (pos 50) 12 t.got
failed_fork_signals_example =
    failed_fork_signals full (pos 101) (pos 50) [] (pos 101 ∷ []) refl refl refl (λ signal. refl)
      (λ signal. refl)

abbrev lost : System
lost = record os { fork = λ i. pos 0; execlp = λ interface. some (codes "No such file") }

child_falls_through_example :
    (t : Monitor) × (main lost ≡ here t)
    × (t.got ≡ [])
    × (t.screen
        ≡ (codes "parent:main: pid:" ++ decimal (pos 100))
          ∷ (codes "child:main: pid:" ++ decimal (pos 100))
          ∷ (codes "child:main: pid:" ++ (decimal (pos 100) ++ codes " I should not get here!"))
          ∷ codes "No such file"
          ∷ (codes "parent:main(" ++ (decimal (pos 100) ++ codes "): Finished!"))
          ∷ [])
child_falls_through_example = child_falls_through lost (codes "No such file") refl refl

abbrev no_files : Counters
no_files path = none

abbrev watcher : Logger
watcher = record {
  interface = take max_buf (codes "lo" ++ replicate max_buf 0);
  is_running = false;
  phase = paused;
  log_open = true;
  log = [];
  screen = [];
}

watches : Watches (codes "lo") watcher
watches = record {
  free = ((λ e. absurd (omega arith)), ((λ e. absurd (omega arith)), tt));
  short = omega arith;
  array = refl;
  opened = refl;
}

no_files-HasInts : HasInts no_files (codes "lo")
unfolding HasInts counter_at
no_files-HasInts counter = omega arith

watched_logs_example :
    (t : Monitor) × (n : Logger) × (main os ≡ here t)
    × (run
          (weave
            (signals_to (pos 102) t.got)
            ((no_files ∷ []) ∷ (no_files ∷ no_files ∷ []) ∷ (no_files ∷ []) ∷ []))
          watcher
        ≡ ok n)
    × (n.phase ≡ ended)
    × (n.log ≡ line_of no_files (codes "lo") ∷ line_of no_files (codes "lo") ∷ [])
watched_logs_example =
    watched_logs os 100 101 102 (codes "lo") (no_files ∷ []) (no_files ∷ no_files ∷ []) no_files []
      watcher refl refl (λ child signal. refl) (λ e. absurd (omega arith)) (inr refl) refl
      (no_files-HasInts, (no_files-HasInts, tt)) watches

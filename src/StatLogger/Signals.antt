-- ===== src/StatLogger/Signals.antt =====
-- Labs/Lab 5/intfMonitor_solution.cpp, what the signals do.
use dps912_unix.Base.{
  Outcome, ap, map, ok, refl, sym, ◌>>=◌, ◌∙◌, ◌≢◌, Bool, List, [], arith, false, if◌then◌else◌,
  true, ◌==◌, ◌∷◌, ◌≡◌, ℕ,
}
use dps912_unix.StatLogger.{
  Event, Phase, after_signal, ended, handle, looping, pass, passes, paused, run, signals, step,
  signal_handler, Logger,
}

-- Whether the loop is to run after some signals: the last SIGUSR1 or SIGUSR2 says so.
unfoldable pub runs_after : Bool → List ℕ → Bool
runs_after b [] = b
runs_after b (signal ∷ rest) =
    runs_after (if signal == 10 then true else if signal == 12 then false else b) rest

handler_running :
    (signal : ℕ) (s : Logger)
    → (signal_handler signal s).is_running
      ≡ (if signal == 10 then true else if signal == 12 then false else s.is_running)
unfolding signal_handler
handler_running signal s = ground arith

handler_kept :
    (signal : ℕ) (s : Logger)
    → ((signal_handler signal s).log ≡ s.log) × ((signal_handler signal s).interface ≡ s.interface)
unfolding signal_handler
handler_kept signal s = (ground arith, ground arith)

pub handled :
    (signal : ℕ) (s : Logger)
    → s.phase ≢ ended
    → step (signals signal) s ≡ ok (record (signal_handler signal s) { phase = looping })
unfolding step
handled signal s h = go s.phase h
  where
    go :
        (p : Phase)
        → p ≢ ended
        → ◌≡◌ {A = Outcome Logger}
            (ok (handle p signal s))
            (ok (record (signal_handler signal s) { phase = looping }))
    go paused h = unfold handle after_signal in refl
    go looping h = unfold handle after_signal in refl
    go ended h = absurd (h refl)

-- Signals that come to a loop change whether it goes on, as the last SIGUSR1 or SIGUSR2 among them says,
-- and nothing of what it logs: ctrl-C, ctrl-Z and all others are discarded.
pub run-signals :
    (list : List ℕ) (s : Logger)
    → s.phase ≡ looping
    → (n : Logger) × (run (map signals list) s ≡ ok n)
      × (n.is_running ≡ runs_after s.is_running list)
      × (n.phase ≡ looping)
      × (n.log ≡ s.log)
      × (n.interface ≡ s.interface)
unfolding run runs_after
run-signals [] s h = (s, refl, refl, h, refl, refl)
run-signals (signal ∷ rest) s h =
    let k = record (signal_handler signal s) { phase = looping } in
    let (n, e, running, phase, logged, name) = run-signals rest k refl in
    let kept = handler_kept signal s in
    (
      n,
      rw (handled signal s (λ e. let x : looping ≡ ended = sym h ∙ e in cc), ◌>>=◌) e,
      running ∙ ap (λ b. runs_after b rest) (handler_running signal s),
      phase,
      logged ∙ kept.0,
      name ∙ kept.1,
    )

pub run_ended : (es : List Event) (s : Logger) → s.phase ≡ ended → run es s ≡ ok s
unfolding run step
run_ended [] s h = refl
run_ended (signals n ∷ es) s h =
    rw (ap (λ p. handle p n s) h ∙ unfold handle in refl, ◌>>=◌) (run_ended es s h)
run_ended (passes f ∷ es) s h =
    rw (ap (λ p. pass p f s) h ∙ unfold pass in refl, ◌>>=◌) (run_ended es s h)

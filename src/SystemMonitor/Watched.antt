-- ===== src/SystemMonitor/Watched.antt =====
-- Labs/Lab 5/sysmonExec.cpp with intfMonitor_solution.cpp: what a child logs between the parent's signals.
use dps912_unix.Base.{
  ==_of_ne, ==_refl, Outcome, arith, codes, false, inl, inr, pos, suc, sym, ◌≢◌, ◌⊎◌, All, Bytes,
  List, NulFree, [], ap, append-nil, append_assoc, eq_ℤ, if◌then◌else◌, length, map, ok, refl,
  replicate, take, true, ℤ, ◌++◌, ◌<◌, ◌>>=◌, ◌∙◌, ◌∷◌, ◌≡◌, ℕ,
}
use dps912_unix.SystemMonitor.{Monitor, delivered, here, main, tag, System}
use dps912_unix.SystemMonitor.Signalling.{main_signals}
use dps912_unix.StatLogger.{
  signal_handler, Counters, Event, ended, gather, looping, max_buf, pass, passes, paused, run,
  signals, step, Logger,
}
use dps912_unix.StatLogger.Passes.{HasInts, line_of, gather_fits}
use dps912_unix.StatLogger.Signals.{handled, run_ended}

-- The signals that one process got, in order.
unfoldable pub signals_to : ℤ → List (ℤ × ℕ) → List ℕ
signals_to pid [] = []
signals_to pid (g ∷ got) =
    let rest = signals_to pid got in if eq_ℤ g.0 pid then g.1 ∷ rest else rest

-- A child's schedule: its signals, and the passes that it makes before, between and after them.
unfoldable pub weave : List ℕ → List (List Counters) → List Event
weave [] [] = []
weave [] (files ∷ more) = map passes files
weave (signal ∷ rest) [] = signals signal ∷ weave rest []
weave (signal ∷ rest) (files ∷ more) = map passes files ++ signals signal ∷ weave rest more

-- A monitor of an interface whose log is open.
pub record Watches (name : Bytes) (s : Logger) : Type 0 where
  pub free : NulFree name
  pub short : length name < 16
  pub array : s.interface ≡ take max_buf (name ++ replicate max_buf 0)
  pub opened : s.log_open ≡ true

run_paused :
    (files : List Counters) (es : List Event) (s : Logger)
    → s.phase ≡ paused
    → run (map passes files ++ es) s ≡ run es s
unfolding run step
run_paused [] es s h = refl
run_paused (f ∷ files) es s h =
    ap (λ p. pass p f s >>= λ t. run (map passes files ++ es) t) h
    ∙ unfold pass in run_paused files es s h

run_looping :
    (name : Bytes) (files : List Counters) (es : List Event) (s : Logger)
    → s.phase ≡ looping
    → s.is_running ≡ true
    → All (λ f. HasInts f name) files
    → Watches name s
    → run (map passes files ++ es) s
      ≡ run es (record s { log = s.log ++ map (λ f. line_of f name) files })
unfolding run step
run_looping name [] es s loops runs ints w =
    ap (λ (l : List Bytes). run es (record s { log = l })) (sym (append-nil s.log))
run_looping name (f ∷ files) es s loops runs ints w =
    let t = record s { log = s.log ++ line_of f name ∷ [] } in
    ap (λ p. pass p f s >>= λ t. run (map passes files ++ es) t) loops
    ∙ unfold pass in
      ap
        (λ b. (if b then gather f s else ok (record s { phase = ended })) >>= λ t.
          run (map passes files ++ es) t)
        runs
      ∙ ap (λ o. o >>= λ t. run (map passes files ++ es) t)
          (gather_fits f name s w.free w.short w.array w.opened ints.0)
      ∙ run_looping name files es t loops runs ints.1
          (record { free = w.free; short = w.short; array = w.array; opened = w.opened })
      ∙ ap (λ (l : List Bytes). run es (record s { log = l }))
          (append_assoc s.log (line_of f name ∷ []) (map (λ f. line_of f name) files))

-- A child that gets SIGUSR1 and then SIGUSR2 logs exactly the passes between the two.
start_and_stop :
    (name : Bytes) (before during : List Counters) (files : Counters) (after : List Counters)
    (s : Logger)
    → s.phase ≡ paused
    → All (λ f. HasInts f name) during
    → Watches name s
    → (n : Logger) × (run (weave (10 ∷ 12 ∷ []) (before ∷ during ∷ (files ∷ after) ∷ [])) s ≡ ok n)
      × (n.phase ≡ ended)
      × (n.log ≡ s.log ++ map (λ f. line_of f name) during)
unfolding weave run
start_and_stop name before during files after s waits ints w =
    let k = record s {
      screen = s.screen ++ codes "intfMonitor: starting up" ∷ [];
      is_running = true;
      phase = looping;
    } in
    let t = record k { log = s.log ++ map (λ f. line_of f name) during } in
    let u = record t {
      screen = t.screen ++ codes "intfMonitor: shutting down" ∷ [];
      is_running = false;
    } in
    let n = record u { phase = ended } in
    let end = map passes (files ∷ after) in
    let onward : List Event → Logger → Outcome Logger = run in
    let starts : step (signals 10) s ≡ ok k =
      handled 10 s (λ e. let x : paused ≡ ended = sym waits ∙ e in cc)
      ∙ unfold signal_handler in refl in
    let stops : step (signals 12) t ≡ ok u =
      handled 12 t (λ e. let x : looping ≡ ended = e in cc) ∙ unfold signal_handler in refl in
    let leaves : step (passes files) u ≡ ok n = unfold step pass in refl in
    (
      n,
      run_paused before (signals 10 ∷ (map passes during ++ signals 12 ∷ end)) s waits
          ∙ ap (λ o. o >>= run (map passes during ++ signals 12 ∷ end)) starts
          ∙ run_looping name during (signals 12 ∷ end) k refl refl ints
              (record { free = w.free; short = w.short; array = w.array; opened = w.opened })
          ∙ ap (λ o. o >>= run end) stops
          ∙ ap (λ o. o >>= run (map passes after)) leaves
          ∙ run_ended (map passes after) n refl,
      refl,
      refl,
    )

-- What the parent sends to each of two children.
both_signals :
    (pid x y : ℕ)
    → x ≢ y
    → (pid ≡ x) ⊎ (pid ≡ y)
    → signals_to (pos pid) ((pos x, 10) ∷ (pos y, 10) ∷ (pos x, 12) ∷ (pos y, 12) ∷ [])
      ≡ 10 ∷ 12 ∷ []
unfolding signals_to
both_signals pid x y apart (inl e) = rw (e, ==_refl x, ==_of_ne y x (λ e. apart (sym e))) refl
both_signals pid x y apart (inr e) = rw (e, ==_refl y, ==_of_ne x y apart) refl

-- When both monitors run and get the parent's signals, each of them, whatever passes it makes before, between
-- and after them, logs one line for each pass between, with the counters of that pass, and ends with its
-- first pass after the second signal.
pub watched_logs :
    (os : System) (x y pid : ℕ) (name : Bytes) (before during : List Counters) (files : Counters)
    (after : List Counters) (s : Logger)
    → os.fork 0 ≡ pos (suc x)
    → os.fork 1 ≡ pos (suc y)
    → ((child : ℤ) (signal : ℕ) → os.kill child signal ≡ delivered (child ∷ []))
    → x ≢ y
    → (pid ≡ suc x) ⊎ (pid ≡ suc y)
    → s.phase ≡ paused
    → All (λ f. HasInts f name) during
    → Watches name s
    → (t : Monitor) × (n : Logger) × (main os ≡ here t)
      × (run (weave (signals_to (pos pid) t.got) (before ∷ during ∷ (files ∷ after) ∷ [])) s ≡ ok n)
      × (n.phase ≡ ended)
      × (n.log ≡ s.log ++ map (λ f. line_of f name) during)
unfolding tag
watched_logs os x y pid name before during files after s fork_x fork_y reaches apart which waits
      ints w =
    let (t, result, got, _) =
      main_signals os (pos (suc x)) (pos (suc y)) (pos (suc x) ∷ []) (pos (suc y) ∷ []) fork_x
        fork_y (==_of_ne (suc x) 0 (λ e. absurd (omega arith)))
        (==_of_ne (suc y) 0 (λ e. absurd (omega arith))) (reaches (pos (suc x)) 10)
        (reaches (pos (suc y)) 10) (reaches (pos (suc x)) 12) (reaches (pos (suc y)) 12) in
    let (n, logged, phase, log) = start_and_stop name before during files after s waits ints w in
    let two : signals_to (pos pid) t.got ≡ 10 ∷ 12 ∷ [] =
      ap (signals_to (pos pid)) got
      ∙ both_signals pid (suc x) (suc y) (λ e. apart (omega arith)) which in
    (
      t,
      n,
      result,
      ap (λ l. run (weave l (before ∷ during ∷ (files ∷ after) ∷ [])) s) two ∙ logged,
      phase,
      log,
    )

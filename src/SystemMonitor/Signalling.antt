-- ===== src/SystemMonitor/Signalling.antt =====
-- Labs/Lab 5/sysmonExec.cpp, the parent's part.
use dps912_unix.Base.{
  if◌then◌else◌, pos, set, suc, Bytes, List, [], ap, append_assoc, codes, decimal, false, is_zero,
  negsuc, refl, true, ℤ, ◌++◌, ◌∙◌, ◌∷◌, ◌≡◌, ℕ,
}
use dps912_unix.SystemMonitor.{
  and_then, here, signal_all, system_monitor, Monitor, child, conclude, delivered, finished_line,
  forbidden, main, missing, print, signal_child, spawn, tag, wait_loop, System,
}

-- What is printed for the children that end.
unfoldable pub waited : List (ℤ × ℤ) → ℤ → List Bytes
waited [] status = finished_line status (negsuc 0) ∷ []
waited (e ∷ rest) status = finished_line e.1 e.0 ∷ waited rest e.1

wait_loop_lem :
    (ended : List (ℤ × ℤ)) (status : ℤ) (s : Monitor)
    → wait_loop ended status s ≡ record s { screen = s.screen ++ waited ended status }
unfolding wait_loop waited
wait_loop_lem [] status s = refl
wait_loop_lem (e ∷ rest) status s =
    wait_loop_lem rest e.1 (print (finished_line e.1 e.0) s)
    ∙ ap (λ (texts : List Bytes). record s { screen = texts })
        (append_assoc s.screen (finished_line e.1 e.0 ∷ []) (waited rest e.1))

-- The parent whose forks gave these two results.
unfoldable pub forked : System → ℤ → ℤ → Monitor
forked os a b = record {
  is_parent = true;
  child_pid = a ∷ b ∷ [];
  got = [];
  screen = (codes "parent:main: pid:" ++ decimal os.self) ∷ [];
}

pub spawn_parent :
    (os : System) (left i : ℕ) (s : Monitor)
    → s.is_parent ≡ true
    → is_zero (os.fork i) ≡ false
    → spawn os (suc left) i s
      ≡ spawn os left (suc i) (record s { child_pid = set s.child_pid i (os.fork i) })
unfolding spawn
spawn_parent os left i s parent nonzero =
    let t = record s { child_pid = set s.child_pid i (os.fork i) } in
    let as_child = and_then (child os i t) (spawn os left (suc i)) in
    let as_parent = spawn os left (suc i) t in
    ap (λ b. if b then (if is_zero (os.fork i) then as_child else as_parent) else here s) parent
    ∙ ap (λ b. if b then as_child else as_parent) nonzero

-- A process that forked, or could not, goes on as the parent.
main_parent :
    (os : System) (a b : ℤ)
    → os.fork 0 ≡ a
    → os.fork 1 ≡ b
    → is_zero a ≡ false
    → is_zero b ≡ false
    → main os ≡ conclude os (forked os a b)
unfolding main spawn forked
main_parent os a b first second ha hb =
    let s : Monitor = record {
      is_parent = true;
      child_pid = pos 0 ∷ pos 0 ∷ [];
      got = [];
      screen = (codes "parent:main: pid:" ++ decimal os.self) ∷ [];
    } in
    ap (λ f. and_then f (conclude os))
      (spawn_parent os 1 0 s refl (ap is_zero first ∙ ha)
        ∙ spawn_parent os 0 1 (record s { child_pid = os.fork 0 ∷ pos 0 ∷ [] }) refl
            (ap is_zero second ∙ hb))
    ∙ λ i. conclude os (record s { child_pid = first i ∷ second i ∷ [] })

sent :
    (os : System) (text : Bytes) (signal : ℕ) (pid : ℤ) (pids : List ℤ) (s : Monitor)
    → os.kill pid signal ≡ delivered pids
    → signal_child os text signal pid s
      ≡ record (print (text ++ decimal pid) s) { got = s.got ++ tag pids signal }
unfolding signal_child
sent os text signal pid pids s h =
    ap
      (λ k. elim k [
        | delivered pids ↦ record (print (text ++ decimal pid) s) { got = s.got ++ tag pids signal }
        | forbidden ↦ print (codes "A error has occured.") s
        | missing ↦ print (codes "There is no child with the following PID: " ++ decimal pid) s
      ])
      h

unfoldable pub start_text : Bytes
start_text = codes "SIGUSR1 has sent start signals to the childen: "

unfoldable pub stop_text : Bytes
stop_text = codes "SIGUSR1 has sent stop signals to the childen: "

-- When both `kill`s reach processes, with either signal, the parent sends SIGUSR1 to the first and the second
-- child, then SIGUSR2 in the same order, then waits for all its children and prints each with its status, and
-- at last the -1 of the failing `wait` with the status before it, and ends. A failed `fork` is a child -1.
pub main_signals :
    (os : System) (a b : ℤ) (first second : List ℤ)
    → os.fork 0 ≡ a
    → os.fork 1 ≡ b
    → is_zero a ≡ false
    → is_zero b ≡ false
    → os.kill a 10 ≡ delivered first
    → os.kill b 10 ≡ delivered second
    → os.kill a 12 ≡ delivered first
    → os.kill b 12 ≡ delivered second
    → (t : Monitor) × (main os ≡ here t)
      × (t.got ≡ ((tag first 10 ++ tag second 10) ++ tag first 12) ++ tag second 12)
      × (t.screen
          ≡ ((codes "parent:main: pid:" ++ decimal os.self)
              ∷ (start_text ++ decimal a)
              ∷ (start_text ++ decimal b)
              ∷ (stop_text ++ decimal a)
              ∷ (stop_text ++ decimal b)
              ∷ waited os.ended (negsuc 0))
            ++ (codes "parent:main(" ++ (decimal os.self ++ codes "): Finished!")) ∷ [])
unfolding conclude system_monitor signal_all forked start_text stop_text
main_signals os a b first second fork_a fork_b ha hb start_a start_b stop_a stop_b =
    let s = forked os a b in
    let s1 = record (print (start_text ++ decimal a) s) { got = tag first 10 } in
    let s2 = record (print (start_text ++ decimal b) s1) { got = s1.got ++ tag second 10 } in
    let s3 = record (print (stop_text ++ decimal a) s2) { got = s2.got ++ tag first 12 } in
    let s4 = record (print (stop_text ++ decimal b) s3) { got = s3.got ++ tag second 12 } in
    let u = record s4 { screen = s4.screen ++ waited os.ended (negsuc 0) } in
    let ending = codes "parent:main(" ++ (decimal os.self ++ codes "): Finished!") in
    let starts : signal_all os start_text 10 (a ∷ b ∷ []) s ≡ s2 =
      ap (signal_child os start_text 10 b) (sent os start_text 10 a first s start_a)
      ∙ sent os start_text 10 b second s1 start_b in
    let stops : signal_all os stop_text 12 (a ∷ b ∷ []) s2 ≡ s4 =
      ap (signal_child os stop_text 12 b) (sent os stop_text 12 a first s2 stop_a)
      ∙ sent os stop_text 12 b second s3 stop_b in
    (
      print ending u,
      main_parent os a b fork_a fork_b ha hb
          ∙ ap
              (λ t. here (
                print ending
                  (wait_loop os.ended (negsuc 0) (signal_all os stop_text 12 t.child_pid t))))
              starts
          ∙ ap (λ t. here (print ending (wait_loop os.ended (negsuc 0) t))) stops
          ∙ ap (λ t. here (print ending t)) (wait_loop_lem os.ended (negsuc 0) s4),
      refl,
      refl,
    )

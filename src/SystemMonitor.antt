-- ===== src/SystemMonitor.antt =====
-- Labs/Lab 5/sysmonExec.cpp: the parent that starts two interface monitors and sends them signals.
-- `main` is what one process does with what `fork`, `execlp`, `kill` and `wait` answer it; a `fork` of 0 makes
-- it the child. Which processes a `kill` reaches is part of the answer.
pub mod Signalling
pub mod Forks
pub mod Watched
mod Tests
use dps912_unix.Base.{
  is_zero, Bool, Bytes, List, Option, [], codes, decimal, false, if◌then◌else◌, negsuc, none, not,
  pos, set, some, suc, true, zero, ℤ, ◌++◌, ◌∷◌, ℕ,
}

-- 0 with the processes that got the signal, or -1 with EPERM or another `errno`.
pub data Killed : Type 0 where
  delivered : List ℤ → Killed
  forbidden : Killed
  missing : Killed

-- `execlp` comes back only with an error; `ended` lists what `wait` returns, a child and its status, until
-- there is no child left.
pub record System : Type 0 where
  pub self : ℤ
  pub fork : ℕ → ℤ
  pub execlp : Bytes → Option Bytes
  pub kill : ℤ → ℕ → Killed
  pub ended : List (ℤ × ℤ)

pub record Monitor : Type 0 where
  pub is_parent : Bool
  pub child_pid : List ℤ
  pub got : List (ℤ × ℕ)  -- which process got which signal, oldest first
  pub screen : List Bytes

-- A process goes on, or its program is replaced by an `intfMonitor` of an interface.
pub data Fate : Type 0 where
  here : Monitor → Fate
  replaced : Bytes → Monitor → Fate

abbrev pub intf : ℕ → Bytes
intf zero = codes "lo"
intf (suc i) = codes "ens33"

abbrev pub print : Bytes → Monitor → Monitor
print text s = record s { screen = s.screen ++ text ∷ [] }

abbrev pub and_then : Fate → (Monitor → Fate) → Fate
and_then (here s) next = next s
and_then (replaced interface s) next = replaced interface s

-- The child's part of a pass.
unfoldable pub child : System → ℕ → Monitor → Fate
child os i s =
    let t = record (print (codes "child:main: pid:" ++ decimal os.self) s) { is_parent = false } in
    elim (os.execlp (intf i)) [
      | none ↦ replaced (intf i) t
      | some error ↦ here (
          print error (
            print (codes "child:main: pid:" ++ (decimal os.self ++ codes " I should not get here!"))
              t))
    ]

-- The loop with the forks.
unfoldable pub spawn : System → ℕ → ℕ → Monitor → Fate
unfolding child
spawn os zero i s = here s
spawn os (suc left) i s =
    let t = record s { child_pid = set s.child_pid i (os.fork i) } in
    let as_child = and_then (child os i t) (spawn os left (suc i)) in
    let as_parent = spawn os left (suc i) t in
    if s.is_parent then (if is_zero (os.fork i) then as_child else as_parent) else here s

unfoldable pub tag : List ℤ → ℕ → List (ℤ × ℕ)
tag [] signal = []
tag (pid ∷ pids) signal = (pid, signal) ∷ tag pids signal

-- A pass of either signalling loop.
unfoldable pub signal_child : System → Bytes → ℕ → ℤ → Monitor → Monitor
unfolding tag
signal_child os text signal pid s = elim (os.kill pid signal) [
  | delivered pids ↦ record (print (text ++ decimal pid) s) { got = s.got ++ tag pids signal }
  | forbidden ↦ print (codes "A error has occured.") s
  | missing ↦ print (codes "There is no child with the following PID: " ++ decimal pid) s
]

unfoldable pub signal_all : System → Bytes → ℕ → List ℤ → Monitor → Monitor
unfolding signal_child
signal_all os text signal [] s = s
signal_all os text signal (pid ∷ pids) s =
    signal_all os text signal pids (signal_child os text signal pid s)

unfoldable pub finished_line : ℤ → ℤ → Bytes
finished_line status pid =
    codes "parent:systemMonitor: status:"
    ++ (decimal status ++ (codes ". The child pid:" ++ (decimal pid ++ codes " has finished")))

-- The loop around `wait`, on the children that have not been waited for: without one, -1 is returned and
-- `status` stays as it is.
unfoldable pub wait_loop : List (ℤ × ℤ) → ℤ → Monitor → Monitor
unfolding finished_line
wait_loop [] status s = print (finished_line status (negsuc 0)) s
wait_loop (e ∷ rest) status s = wait_loop rest e.1 (print (finished_line e.1 e.0) s)

-- SIGUSR1 is 10 and SIGUSR2 12.
unfoldable pub system_monitor : System → Monitor → Monitor
unfolding signal_all wait_loop
system_monitor os s =
    let t =
      signal_all os (codes "SIGUSR1 has sent start signals to the childen: ") 10 s.child_pid s in
    let u =
      signal_all os (codes "SIGUSR1 has sent stop signals to the childen: ") 12 t.child_pid t in
    wait_loop os.ended (negsuc 0) u

unfoldable pub conclude : System → Monitor → Fate
unfolding system_monitor
conclude os s =
    let t = if s.is_parent then system_monitor os s else s in
    here (print (codes "parent:main(" ++ (decimal os.self ++ codes "): Finished!")) t)

unfoldable pub main : System → Fate
unfolding spawn conclude
main os =
    and_then
      (spawn os 2 0 (record {
        is_parent = true;
        child_pid = pos 0 ∷ pos 0 ∷ [];
        got = [];
        screen = (codes "parent:main: pid:" ++ decimal os.self) ∷ [];
      }))
      (conclude os)

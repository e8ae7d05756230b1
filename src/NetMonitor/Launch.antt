-- ===== src/NetMonitor/Launch.antt =====
-- Assignments/A1/netMonitor.cpp, `main` from its start: the names, the children and the socket.
-- What `cin` holds, and what `fork`, `execlp`, `socket` and `bind` answer this process, is a `Setup`; a
-- `fork` of 0 makes it the child.
pub mod Roles
use dps912_unix.Base.{
  Bytes, List, Option, Outcome, [], exit_failure, fault, if◌then◌else◌, is_zero, ltb_ℤ, negsuc,
  none, ok, pos, some, suc, true, zero, ℤ, ◌++◌, ◌+◌, ◌>>=◌, ◌∷◌, ℕ,
}
use dps912_unix.NetMonitor.{Net, child_argument, first_two, print_line, serve, Link}

-- `execlp` comes back only with the text of an error.
pub record Setup : Type 0 where
  pub number : ℤ  -- what `cin >> numInterfaces` stores
  pub words : List Bytes
  pub fork : ℕ → ℤ
  pub execlp : Bytes → Option Bytes
  pub socket : ℤ
  pub bind : ℤ

-- A process serves, or its program is replaced by an `intfMonitor` of an interface.
pub data Fate : Type 0 where
  serves : List Link → Net → Fate
  monitors : Bytes → Fate

-- The loop that asks for names; at the end of the input a name stays empty.
unfoldable pub read_names : ℕ → List Bytes → List Bytes
read_names zero words = []
read_names (suc more) [] = [] ∷ read_names more []
read_names (suc more) (name ∷ words) = name ∷ read_names more words

-- How often a loop up to a number runs.
abbrev pub passes : ℤ → ℕ
passes (pos n) = n
passes (negsuc n) = 0

pub data Launched : Type 0 where
  parent : List ℤ → Net → Launched  -- `childPid`
  failed_child : Net → Launched
  replaced : Bytes → Launched

unfoldable pub launch_child : Setup → Bytes → Net → Launched
launch_child os name n = elim (os.execlp name) [
  | none ↦ replaced name
  | some error ↦ failed_child (print_line error n)
]

-- The loop with the forks; only a child reads `intf[i]`.
unfoldable pub launch : Setup → List Bytes → ℕ → ℕ → List ℤ → Net → Outcome Launched
unfolding launch_child
launch os intf i zero child_pid n = ok (parent child_pid n)
launch os intf i (suc more) child_pid n =
    let as_child = child_argument intf i >>= λ name. ok (launch_child os name n) in
    let as_parent = launch os intf (i + 1) more (child_pid ++ os.fork i ∷ []) n in
    if is_zero (os.fork i) then as_child else as_parent

-- From the socket on, which a child whose `execlp` failed reaches as well. `handleError` exits.
unfoldable pub set_up : Setup → List Link → Net → Outcome Fate
set_up os links n =
    let served = serve links (record n { socket_open = true }) >>= λ p. ok (serves p.0 p.1) in
    if ltb_ℤ os.socket (pos 0)
    then fault exit_failure
    else if ltb_ℤ os.bind (pos 0)
    then fault exit_failure
    else served

unfoldable pub go_on : Setup → List Link → Launched → Outcome Fate
unfolding set_up
go_on os links (parent child_pid n) = set_up os links n
go_on os links (failed_child n) = set_up os links n
go_on os links (replaced name) = ok (monitors name)

-- The connections that the process accepts, one for each interface.
unfoldable pub connections : (ℕ → Link) → ℕ → List Link
connections accept zero = []
connections accept (suc more) = accept 0 ∷ connections (λ i. accept (i + 1)) more

-- `accept` gives the process its connections, in the order in which they come.
unfoldable pub main : Setup → (ℕ → Link) → Net → Outcome Fate
unfolding launch go_on read_names connections
main os accept n = do
  intf ← first_two (read_names (passes os.number) os.words)
  launched ← launch os intf 0 (passes os.number) [] n
  go_on os (connections accept (passes os.number)) launched

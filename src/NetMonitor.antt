-- ===== src/NetMonitor.antt =====
-- Assignments/A1/netMonitor.cpp: the server that starts the interface monitors and commands them.
-- A connection is the results that its reads will have, in order, and the messages sent on it. `main`
-- is run from end to end; a read for which nothing is left never returns, which is the fault `blocked`.
pub mod Relay
pub mod Handshake
pub mod ShutDown
pub mod Children
pub mod Launch
mod Tests
use dps912_unix.Messages.{receive_message, buf_len}
use dps912_unix.Base.{
  Bool, Bytes, List, Option, Outcome, [], blocked, codes, decimal, false, fault, get_elem?,
  if◌then◌else◌, none, not, ok, out_of_bounds, pos, some, string_eq, suc, uninitialised, zero, ◌++◌,
  ◌+◌, ◌==◌, ◌>>=◌, ◌∷◌, ℕ,
}

-- What `read` returns: bytes (none at the end of the stream), or an error because SIGINT came.
pub data Read : Type 0 where
  got : Bytes → Read
  interrupted : Read

pub record Link : Type 0 where
  pub reads : List Read
  pub sent : List Bytes
  pub is_open : Bool

pub record Net : Type 0 where
  pub is_working : Bool
  pub buffer : Bytes
  pub screen : Bytes
  pub socket_open : Bool  -- `m_fd`, and the socket's file

unfoldable pub print_line : Bytes → Net → Net
print_line text n = record n { screen = n.screen ++ (text ++ 10 ∷ []) }

-- `signalHandler`; SIGINT is 2.
unfoldable pub signal_handler : ℕ → Net → Net
unfolding print_line
signal_handler signum n =
    if signum == 2
    then record (print_line (codes "SignalHandler(" ++ decimal (pos signum) ++ codes "): SIGINT")
        n) { is_working = false }
    else print_line (codes "SignalHandler(" ++ decimal (pos signum) ++ codes "): unknown") n

-- `receiveMessage` of one result; an interrupted read stores nothing in the cleared buffer.
unfoldable pub take_read : Read → Net → Outcome (Bytes × Net)
unfolding signal_handler
take_read (got chunk) n =
    receive_message chunk n.buffer >>= λ r. ok (r.message, record n { buffer = r.buffer })
take_read interrupted n =
    let m = signal_handler 2 n in
    receive_message [] m.buffer >>= λ r. ok (r.message, record m { buffer = r.buffer })

unfoldable pub receive_from : List Read → Link → Net → Outcome (Bytes × Link × Net)
receive_from [] l n = fault blocked
receive_from (r ∷ rest) l n = take_read r n >>= λ p. ok (p.0, record l { reads = rest }, p.1)

unfoldable pub receive : Link → Net → Outcome (Bytes × Link × Net)
unfolding receive_from
receive l n = receive_from l.reads l n

unfoldable pub send : Bytes → Link → Link
send message l = record l { sent = l.sent ++ message ∷ [] }

-- `intf`: the names of the first two interfaces.
unfoldable pub first_two : List Bytes → Outcome (List Bytes)
first_two (first ∷ second ∷ rest) = ok (first ∷ second ∷ [])
first_two _ = fault out_of_bounds

-- What child `i` passes on to `execlp`.
unfoldable pub child_argument : List Bytes → ℕ → Outcome Bytes
child_argument intf i = elim (get_elem? intf i) [ none ↦ fault out_of_bounds | some name ↦ ok name ]

unfoldable pub child_arguments : ℕ → ℕ → List Bytes → List (Outcome Bytes)
unfolding child_argument
child_arguments i zero intf = []
child_arguments i (suc more) intf = child_argument intf i ∷ child_arguments (i + 1) more intf

-- What the accept loop says to the first message, and does on the second.
unfoldable pub note_ready : Bytes → Net → Net
unfolding print_line
note_ready message n =
    if not (string_eq message (codes "Ready"))
    then print_line (codes "ERROR: Not ready to start yet") n
    else n

unfoldable pub judge : Bytes → Link → Net → Link × Net
unfolding print_line send
judge answer l n =
    if not (string_eq answer (codes "Monitoring"))
    then (send (codes "Shut Down") l, print_line (codes "Error: Monitoring failed") n)
    else (l, n)

-- A pass of the accept loop on its new connection.
unfoldable pub welcome : Link → Net → Outcome (Link × Net)
welcome l n = do
  (message, l', n') ← receive l n
  (answer, l'', n'') ← receive (send (codes "Monitor") l') (note_ready message n')
  ok (judge answer l'' n'')

unfoldable pub accept_all : List Link → Net → Outcome (List Link × Net)
accept_all [] n = ok ([], n)
accept_all (l ∷ ls) n = do (l', n') ← welcome l n; (ls', n'') ← accept_all ls n'; ok (l' ∷ ls', n'')

-- What the command loop sends for a message, if anything.
unfoldable pub reply : Bytes → Option Bytes
reply message =
    if string_eq message (codes "Link down")
    then some (codes "Set Link Up")
    else if string_eq message (codes "Link Up")
    then some (codes "Monitor")
    else none

unfoldable pub send_reply : Option Bytes → Link → Link
unfolding send
send_reply none l = l
send_reply (some message) l = send message l

-- The command loop on the reads of its connection; `continue` goes to the test as well.
unfoldable pub relay : List Read → Link → Net → Outcome (Link × Net)
unfolding send_reply
relay [] l n = fault blocked
relay (r ∷ rest) l n = do
  (message, n') ← take_read r n
  let l' = send_reply (reply message) (record l { reads = rest })
  let more = relay rest l' n'
  if n'.is_working then more else ok (l', n')

-- `retRecv` is the connection that was accepted last, and no other is read in the command loop.
unfoldable pub relay_last : List Link → Net → Outcome (List Link × Net)
relay_last [] n = fault uninitialised
relay_last (l ∷ []) n = relay l.reads l n >>= λ p. ok (p.0 ∷ [], p.1)
relay_last (l ∷ k ∷ ls) n = relay_last (k ∷ ls) n >>= λ p. ok (l ∷ p.0, p.1)

-- A pass of the shutdown loop for client `i`.
unfoldable pub dismiss : ℕ → Link → Net → Outcome (Link × Net)
unfolding print_line send
dismiss i l n = do
  let m =
      print_line (codes "server: request client " ++ decimal (pos (i + 1)) ++ codes " to quit") n
  let asked = send (codes "Shut Down") l
  (message, l', n') ← receive asked m
  ok ((if string_eq message (codes "Done") then record l' { is_open = false } else l'), n')

unfoldable pub dismiss_all : ℕ → List Link → Net → Outcome (List Link × Net)
dismiss_all i [] n = ok ([], n)
dismiss_all i (l ∷ ls) n = do
  (l', n') ← dismiss i l n
  (ls', n'') ← dismiss_all (i + 1) ls n'
  ok (l' ∷ ls', n'')

-- `main` once the names are known, the socket is bound and the children run, with as many connections
-- as names.
unfoldable pub serve : List Link → Net → Outcome (List Link × Net)
serve links n = do
  (accepted, n1) ← accept_all links (print_line (codes "Waiting for the client...") n)
  (served, n2) ← relay_last accepted n1
  (dismissed, n3) ← dismiss_all 0 served n2
  ok (dismissed, record n3 { socket_open = false })

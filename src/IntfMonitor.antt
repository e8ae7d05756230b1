-- ===== src/IntfMonitor.antt =====
-- Assignments/A1/intfMonitor.cpp: the monitor of one network interface, a client of netMonitor.
-- Its `main` is a step function over phases, cut where it waits: before it reads its files, before it
-- reads a message, and at each pass of the display loop. What the kernel answers is a `World`.
pub mod Protocol
pub mod Display
pub mod Orphans
pub mod Statistics
mod Tests
use dps912_unix.Messages.{filled, receive_message, send_message, buf_len}
use dps912_unix.Base.{
  Bool, Bytes, List, Option, Outcome, [], codes, decimal, exit_failure, false, fault, if◌then◌else◌,
  ltb_ℤ, negsuc, none, not, ok, pos, replicate, some, string_eq, take, true, ℤ, ◌++◌, ◌==◌, ◌>>=◌,
  ◌∷◌, ℕ,
}

-- The variables that a pass of the outer loop reads from the files.
pub record Stats : Type 0 where
  pub operstate : Bytes
  pub carrier_up_count : Bytes
  pub carrier_down_count : Bytes
  pub rx_bytes : Bytes
  pub rx_dropped : Bytes
  pub rx_errors : Bytes
  pub rx_packets : Bytes
  pub tx_bytes : Bytes
  pub tx_dropped : Bytes
  pub tx_errors : Bytes
  pub tx_packets : Bytes

-- `s.erase(std::remove(s.begin(), s.end(), '\n'), s.end())`.
unfoldable pub remove_newlines : Bytes → Bytes
remove_newlines [] = []
remove_newlines (c ∷ cs) = if c == 10 then remove_newlines cs else c ∷ remove_newlines cs

-- A file read whole through an `ifstream`; one that cannot be opened gives the empty string.
unfoldable pub read_stat : Option Bytes → Bytes
read_stat none = []
read_stat (some text) = remove_newlines text

abbrev pub stats_path : Bytes
stats_path = codes "/sys/class/net"

-- The eleven reads, by their paths.
unfoldable pub gather : (Bytes → Option Bytes) → Bytes → Stats
gather files folders =
    let read_file = λ (path : Bytes). read_stat (files ((stats_path ++ b'/' ∷ folders) ++ path)) in
    record {
      operstate = read_file (codes "/operstate");
      carrier_up_count = read_file (codes "/carrier_up_count");
      carrier_down_count = read_file (codes "/carrier_down_count");
      rx_bytes = read_file (codes "/statistics/rx_bytes");
      rx_dropped = read_file (codes "/statistics/rx_dropped");
      rx_errors = read_file (codes "/statistics/rx_errors");
      rx_packets = read_file (codes "/statistics/rx_packets");
      tx_bytes = read_file (codes "/statistics/tx_bytes");
      tx_dropped = read_file (codes "/statistics/tx_dropped");
      tx_errors = read_file (codes "/statistics/tx_errors");
      tx_packets = read_file (codes "/statistics/tx_packets");
    }

pub data Phase : Type 0 where
  gathering : Phase
  waiting : Stats → Phase
  displaying : Stats → Phase
  done : Phase

pub record Monitor : Type 0 where
  pub pid : ℤ
  pub folders : Bytes  -- `argv[1]`
  pub is_working : Bool
  pub fd_open : Bool
  pub inbox : Bytes
  pub outbox : Bytes
  pub buffer : Bytes
  pub phase : Phase
  pub screen : Bytes

-- The request that `interfaceUp` hands to `ioctl`: 16 bytes of name, and the flags, of which only
-- IFF_UP is set.
pub record Ifreq : Type 0 where
  pub name : Bytes
  pub up : Bool

-- What happens around a step: the bytes that have come from the peer, the files, the result of
-- SIOCSIFFLAGS, and whether the peer has closed its end.
pub record World : Type 0 where
  pub arriving : Bytes
  pub files : Bytes → Option Bytes
  pub set_flags : Ifreq → ℤ
  pub peer_closed : Bool

-- `strncpy(ifr.ifr_name, iface, IFNAMSIZ)` into a zeroed structure.
unfoldable pub interface_request : Bytes → Ifreq
interface_request iface = record { name = take 16 (iface ++ replicate 16 0); up = true }

unfoldable pub interface_up : World → Bytes → ℤ
unfolding interface_request
interface_up w iface = w.set_flags (interface_request iface)

unfoldable pub print_line : Bytes → Monitor → Monitor
print_line text m = record m { screen = m.screen ++ (text ++ 10 ∷ []) }

unfoldable pub send : Bytes → Monitor → Monitor
send message m = record m { outbox = m.outbox ++ send_message message }

-- The end of a pass of the outer loop, `while (isWorking)`.
unfoldable pub again : Monitor → Monitor
again m = record m { phase = if m.is_working then gathering else done }

-- The lines of a pass of the display loop.
unfoldable pub display_lines : Bytes → Stats → List Bytes
display_lines interface t =
    (codes "Name of Interface: "
      ++ interface
      ++ codes " Operstate: "
      ++ t.operstate
      ++ codes " Carrier up: "
      ++ t.carrier_up_count
      ++ codes " Carrier down:"
      ++ t.carrier_down_count)
    ∷ (codes "rx_bytes: "
        ++ t.rx_bytes
        ++ codes " rx_dropped: "
        ++ t.rx_dropped
        ++ codes " rx_errors: "
        ++ t.rx_errors
        ++ codes " rx_packets:"
        ++ t.rx_packets)
    ∷ (codes "tx_bytes: "
        ++ t.tx_bytes
        ++ codes "tx_dropped: "
        ++ t.tx_dropped
        ++ codes "tx_errors: "
        ++ t.tx_errors
        ++ codes "tx_packets: "
        ++ t.tx_packets)
    ∷ (10 ∷ [])
    ∷ []

unfoldable pub print_lines : List Bytes → Monitor → Monitor
print_lines [] m = m
print_lines (line ∷ rest) m = print_lines rest (print_line line m)

-- The branches of the outer loop on a message.
unfoldable pub answer : World → Stats → Bytes → Monitor → Outcome Monitor
unfolding send again print_line
answer w t message m =
    if string_eq message (codes "Monitor")
    then ok (record (send (codes "Monitoring") m) { phase = displaying t })
    else if string_eq message (codes "Set Link Up")
    then (if ltb_ℤ (interface_up w m.folders) (pos 0)
        then fault exit_failure
        else ok (again (send (codes "Link Up") m)))
    else if string_eq message (codes "Shut Down")
    then ok (
        again
          (record (send (codes "Done") (
            print_line
              (codes "The client " ++ decimal m.pid ++ codes " has recieved a request to quit")
              m)) { fd_open = false; is_working = false }))
    else ok (again (print_line (codes "Command not known") m))

-- `receiveMessage` waits for bytes or for the end of the stream.
unfoldable pub read_stream : Bytes → World → Stats → Monitor → Outcome Monitor
read_stream [] w t m =
    if w.peer_closed then answer w t [] (record m { buffer = filled [] m.buffer }) else ok m
read_stream (c ∷ rest) w t m = receive_message (c ∷ rest) m.buffer >>= λ r.
    answer w t r.message (record m { inbox = r.left; buffer = r.buffer })

unfoldable pub await_message : World → Stats → Monitor → Outcome Monitor
unfolding read_stream
await_message w t m = read_stream m.inbox w t m

-- A pass of the display loop: `isRunning` is never cleared, so it is left only if the state is "down".
unfoldable pub display : Stats → Monitor → Monitor
unfolding send again
display t m =
    let shown = print_lines (display_lines m.folders t) m in
    if string_eq t.operstate (codes "down") then again (send (codes "Link down") shown) else shown

run_phase : Phase → World → Monitor → Outcome Monitor
run_phase gathering w m = ok (record m { phase = waiting (gather w.files m.folders) })
run_phase (waiting t) w m = await_message w t m
run_phase (displaying t) w m = ok (display t m)
run_phase done w m = ok m

unfoldable pub step : World → Monitor → Outcome Monitor
unfolding run_phase
step w m = run_phase m.phase w (record m { inbox = m.inbox ++ w.arriving })

unfoldable pub run : List World → Monitor → Outcome Monitor
run [] m = ok m
run (w ∷ ws) m = step w m >>= λ n. run ws n

-- What `main` meets before its loop.
pub record Setup : Type 0 where
  pub socket_made : Bool
  pub connected : Bool
  pub argc : ℕ
  pub argument : Bytes
  pub directory : Bytes → Bool
  pub own_pid : ℤ
  pub stack : Bytes  -- the uninitialised `buffer_recieve`

pub data Start : Type 0 where
  exits : ℤ → Start
  runs : Monitor → Start

-- `main` up to its loop: the socket comes before the arguments, "Ready" behind both directories.
unfoldable pub start : Setup → Start
unfolding send
start u =
    if not u.socket_made
    then exits (negsuc 0)
    else if not u.connected
    then exits (negsuc 0)
    else if not (u.argc == 2)
    then exits (pos 1)
    else if not (u.directory (stats_path ++ b'/' ∷ u.argument))
    then exits (pos 2)
    else if not (u.directory stats_path)
    then exits (pos 2)
    else runs (
        send (codes "Ready") (record {
          pid = u.own_pid;
          folders = u.argument;
          is_working = true;
          fd_open = true;
          inbox = [];
          outbox = [];
          buffer = u.stack;
          phase = gathering;
          screen = [];
        }))

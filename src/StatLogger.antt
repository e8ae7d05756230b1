-- ===== src/StatLogger.antt =====
-- Labs/Lab 5/intfMonitor_solution.cpp: a monitor that is driven by signals and logs an interface's counters.
-- `main` is a step function: it waits in `pause`, loops, or has ended. Signals come between its passes.
pub mod Signals
pub mod Passes
mod Tests
use dps912_unix.Base.{
  Bool, Bytes, List, Option, Outcome, [], c_string, codes, decimal, false, fault, if◌then◌else◌,
  none, null_string, ok, pos, replicate, some, store, take, true, ℤ, ◌++◌, ◌==◌, ◌>>=◌, ◌∷◌, ℕ,
}

abbrev pub max_buf : ℕ
max_buf = 128

pub data Phase : Type 0 where
  paused looping ended : Phase

pub record Logger : Type 0 where
  pub interface : Bytes  -- the array
  pub is_running : Bool
  pub phase : Phase
  pub log_open : Bool  -- whether Network.log could be opened
  pub log : List Bytes  -- what was written to it
  pub screen : List Bytes

-- The four counters of a pass: for a path, the number that `infile >> x` takes from the file, if it can.
abbrev pub Counters : Type 0
Counters = Bytes → Option ℤ

-- `signalHandler`; SIGUSR1 is 10, SIGINT 2, SIGTSTP 20 and SIGUSR2 12.
unfoldable pub signal_handler : ℕ → Logger → Logger
signal_handler signal s =
    if signal == 10
    then record s { screen = s.screen ++ codes "intfMonitor: starting up" ∷ []; is_running = true }
    else if signal == 2
    then record s { screen = s.screen ++ codes "intfMonitor: ctrl-C discarded" ∷ [] }
    else if signal == 20
    then record s { screen = s.screen ++ codes "intfMonitor: ctrl-Z discarded" ∷ [] }
    else if signal == 12
    then record s {
      screen = s.screen ++ codes "intfMonitor: shutting down" ∷ [];
      is_running = false;
    }
    else record s { screen = s.screen ++ codes "intfMonitor: undefined signal" ∷ [] }

-- `strncpy(interface, argv[1], MAXBUF)`, which does not end a longer name.
unfoldable pub copy_interface : Option Bytes → Outcome Bytes
copy_interface none = fault null_string
copy_interface (some name) = ok (take max_buf (name ++ replicate max_buf 0))

-- `main` up to `pause`, the handlers registered.
unfoldable pub start : Option Bytes → Bool → Outcome Logger
unfolding copy_interface
start argument opened = do
  array ← copy_interface argument
  name ← c_string array
  ok (record {
    interface = array;
    is_running = false;
    phase = paused;
    log_open = opened;
    log = [];
    screen = (codes "intfMonitor:main: interface:" ++ name) ∷ [];
  })

unfoldable pub stat_path : Bytes → Bytes → Bytes
stat_path name counter = codes "/sys/class/net/" ++ (name ++ (codes "/statistics/" ++ counter))

-- `sprintf` of the path into `statPath`, and the reading of the file; a counter starts as 0.
unfoldable pub read_counter : Counters → Bytes → Bytes → Outcome ℤ
unfolding stat_path
read_counter files name counter =
    store (replicate max_buf 0) (stat_path name counter ++ 0 ∷ []) >>= λ array.
    ok (elim (files (stat_path name counter)) [ none ↦ pos 0 | some value ↦ value ])

-- `"%s: tx_bytes:%d rx_bytes:%d tx_packets:%d rx_packets: %d\n"`.
unfoldable pub log_line : Bytes → ℤ → ℤ → ℤ → ℤ → Bytes
log_line name tx_bytes rx_bytes tx_packets rx_packets =
    name
    ++ (codes ": tx_bytes:"
        ++ (decimal tx_bytes
            ++ (codes " rx_bytes:"
                ++ (decimal rx_bytes
                    ++ (codes " tx_packets:"
                        ++ (decimal tx_packets
                            ++ (codes " rx_packets: " ++ (decimal rx_packets ++ 10 ∷ []))))))))

-- `sprintf` into `data`, and `write` to the log.
unfoldable pub write_line : Bytes → Logger → Outcome Logger
write_line text s = store (replicate max_buf 0) (text ++ 0 ∷ []) >>= λ array.
    ok (if s.log_open then record s { log = s.log ++ text ∷ [] } else s)

-- A pass of the loop behind its test.
unfoldable pub gather : Counters → Logger → Outcome Logger
unfolding read_counter log_line write_line
gather files s = do
  name ← c_string s.interface
  tx_bytes ← read_counter files name (codes "tx_bytes")
  rx_bytes ← read_counter files name (codes "rx_bytes")
  tx_packets ← read_counter files name (codes "tx_packets")
  rx_packets ← read_counter files name (codes "rx_packets")
  write_line (log_line name tx_bytes rx_bytes tx_packets rx_packets) s

pub data Event : Type 0 where
  signals : ℕ → Event
  passes : Counters → Event

-- `pause` returns after the handler of any signal.
unfoldable pub after_signal : Phase → Phase
after_signal paused = looping
after_signal looping = looping
after_signal ended = ended

unfoldable pub pass : Phase → Counters → Logger → Outcome Logger
unfolding gather
pass paused files s = ok s
pass looping files s = if s.is_running then gather files s else ok (record s { phase = ended })
pass ended files s = ok s

-- A process that has ended handles no signal.
unfoldable pub handle : Phase → ℕ → Logger → Logger
unfolding signal_handler after_signal
handle ended signal s = s
handle p signal s = record (signal_handler signal s) { phase = after_signal p }

unfoldable pub step : Event → Logger → Outcome Logger
unfolding handle pass
step (signals signal) s = ok (handle s.phase signal s)
step (passes files) s = pass s.phase files s

unfoldable pub run : List Event → Logger → Outcome Logger
run [] s = ok s
run (e ∷ es) s = step e s >>= λ t. run es t

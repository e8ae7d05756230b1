-- ===== src/Logger.antt =====
-- Assignments/A2/Logger.h and Logger.cpp: the logging client that each process links.
-- The globals are a record. Its two threads, the caller's and the receiver's, interleave by whole
-- calls of the caller and whole rounds of the receiver; `log_print` and `log_send` are the two halves
-- of a call that `Race` takes apart.
pub mod Commands
pub mod Filter
pub mod Rounds
pub mod Receiver
pub mod Race
mod Tests
use dps912_unix.Datagrams.{Arrival, cleared, recv_into, recv_sender, recv_size, server, Address}
use dps912_unix.Base.{
  ℕ, ◌+◌, ◌-◌, ◌%◌, ◌^◌, Bool, true, false, List, [], ◌∷◌, ◌++◌, Option, none, some, ltb_ℤ, ℤ, pos,
  negsuc, if◌then◌else◌, length, take, drop, replicate, set, get_elem?, Bytes, codes, c_string,
  store, string_ge, find, substr, decimal, Outcome, ok, fault, out_of_bounds, ◌>>=◌,
}

pub data LogLevel : Type 0 where
  debug warning error critical : LogLevel

-- The enumerators' values.
unfoldable pub value : LogLevel → ℤ
value debug = negsuc 0
value warning = pos 0
value error = pos 1
value critical = pos 2

pub record Logger : Type 0 where
  pub fd_open : Bool
  pub buf : Bytes
  pub is_working : Bool
  pub server_address : Address
  pub level_log : LogLevel
  pub locked : Bool  -- `mutexes`, which only the receive thread takes
  pub blocked : Bool  -- the receive thread waits for a mutex that it holds itself
  pub sent : List (Address × Bytes)  -- the datagrams that left the socket, oldest first

-- `InitializeLog`, the socket created.
unfoldable pub initialize_log : Logger
initialize_log = record {
  fd_open = true;
  buf = cleared;
  is_working = true;
  server_address = server;
  level_log = error;
  locked = false;
  blocked = false;
  sent = [];
}

unfoldable pub set_log_level : LogLevel → Logger → Logger
set_log_level level s = record s { level_log = level }

pub record LogCall : Type 0 where
  pub level : LogLevel
  pub prog : Bytes
  pub func : Bytes
  pub line : ℤ
  pub message : Bytes

-- `levelStr`.
abbrev pub level_strs : List Bytes
level_strs = codes "DEBUG" ∷ codes "WARNING" ∷ codes "ERROR" ∷ codes "CRITICAL" ∷ []

-- `levelStr[level]`: an enumerator indexes by its value.
unfoldable pub level_str : ℤ → Outcome Bytes
level_str (negsuc n) = fault out_of_bounds
level_str (pos n) = elim (get_elem? level_strs n) [
  | none ↦ fault out_of_bounds
  | some label ↦ ok label
]

-- What `"%s %s %s:%s:%d %s\n"` prints.
unfoldable pub log_text : Bytes → Bytes → LogCall → Bytes
log_text dt label c =
    dt
    ++ b' ' ∷ label
    ++ b' ' ∷ c.prog
    ++ b':' ∷ c.func
    ++ b':' ∷ decimal c.line
    ++ b' ' ∷ c.message
    ++ 10 ∷ []

-- `memset`, `sprintf` and the terminator; the second part is `len`.
unfoldable pub log_print : Bytes → LogCall → Logger → Outcome (Logger × ℕ)
log_print dt c s = do
  label ← level_str (value c.level)
  let text = log_text dt label c
  buf ← store cleared (text ++ 0 ∷ [])
  let len = length text + 1
  ok (record s { buf = set buf (len - 1) 0 }, len)

-- `sendto`, which fails on a closed descriptor; `Log` ignores its result.
unfoldable pub log_send : ℕ → Logger → Logger
log_send len s =
    if s.fd_open then record s { sent = s.sent ++ (s.server_address, take len s.buf) ∷ [] } else s

-- `Log`, at the moment that `ctime` calls `dt`.
unfoldable pub log : Bytes → LogCall → Logger → Outcome Logger
log dt c s =
    if ltb_ℤ (value s.level_log) (value c.level)
    then (log_print dt c s >>= λ p. ok (log_send p.1 p.0))
    else ok s

unfoldable pub exit_log : Logger → Logger
exit_log s = record s { is_working = false; fd_open = false }

-- The first thing a round does, before it takes the mutex: `memset(buf, 0, BUF_LEN)`.
unfoldable pub clear_buf : Logger → Logger
clear_buf s = record s { buf = cleared }

-- `recvfrom` into `buf`, which writes the sender over `server_address`; the result is the size.
unfoldable pub recv_from : Arrival → Logger → Logger × ℤ
recv_from a s = (
  record s { buf = recv_into a s.buf; server_address = recv_sender a s.server_address },
  recv_size a,
)

-- `message.substr((message.find("=") + 1))`, the sum a `size_t`.
unfoldable pub stat_of : Bytes → Outcome Bytes
stat_of message = substr message ((find b'=' message + 1) % 2 ^ 64)

-- The ladder of comparisons; `none` is its `continue`.
unfoldable pub level_of_stat : Bytes → Option LogLevel
level_of_stat stat =
    if string_ge stat (codes "DEBUG")
    then some debug
    else if string_ge stat (codes "WARNING")
    then some warning
    else if string_ge stat (codes "ERROR")
    then some error
    else if string_ge stat (codes "CRITICAL")
    then some critical
    else none

-- The rest of a round after the ladder: `continue` passes the `unlock` over.
unfoldable pub apply_level : Option LogLevel → Logger → Logger
apply_level (some level) s = record s { level_log = level; locked = false }
apply_level none s = s

-- The part of a round in which the thread holds the mutex.
unfoldable pub read_command : Arrival → Logger → Outcome Logger
read_command a s =
    let (t, size) = recv_from a s in
    c_string t.buf >>= λ message.
    if ltb_ℤ (pos 0) size
    then (stat_of message >>= λ stat. ok (apply_level (level_of_stat stat) t))
    else ok (record t { locked = false })

-- A round of `receiveThread`. To lock a mutex that the thread itself holds blocks it.
unfoldable pub receive_round : Arrival → Logger → Outcome Logger
receive_round a s =
    let t = clear_buf s in
    if t.locked
    then ok (record t { blocked = true })
    else read_command a (record t { locked = true })

-- A step of the process: a call of the program, or a round of the receive thread, which comes only
-- while its loop runs.
pub data Event : Type 0 where
  set_level : LogLevel → Event
  logs : Bytes → LogCall → Event
  round : Arrival → Event
  exits : Event

unfoldable pub step : Event → Logger → Outcome Logger
unfolding set_log_level exit_log
step (set_level level) s = ok (set_log_level level s)
step (logs dt c) s = log dt c s
step (round a) s = if s.blocked then ok s else if s.is_working then receive_round a s else ok s
step exits s = ok (exit_log s)

unfoldable pub run : List Event → Logger → Outcome Logger
run [] s = ok s
run (e ∷ es) s = step e s >>= λ t. run es t

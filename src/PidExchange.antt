-- ===== src/PidExchange.antt =====
-- Labs/Lab 6: client.cpp and server.cpp, a fixed dialogue over a local stream socket: "Pid", "Sleep", "Quit".
-- Each program is a step function that is cut at its reads; what the kernel answers is an `Answer`.
pub mod Dialogue
mod Tests
use dps912_unix.Base.{
  Bool, Bytes, List, Option, Outcome, [], c_string, codes, decimal, drop, exit_failure, fault,
  if◌then◌else◌, leb, length, none, not, ok, out_of_bounds, replicate, some, string_eq, take, ℤ,
  ◌++◌, ◌-◌, ◌>>=◌, ◌∷◌, ℕ,
}

abbrev pub buf_len : ℕ
buf_len = 256

-- The result of a `read`, `none` for -1 and nothing at the end of the stream; and whether the `write`
-- that follows it succeeds.
pub record Answer : Type 0 where
  pub chunk : Option Bytes
  pub written : Bool

-- `bzero(buf, BUF_LEN)` and `read(fd, buf, BUF_LEN - 1)`.
unfoldable pub buffer : Bytes → Bytes
buffer stream =
    let chunk = take (buf_len - 1) stream in chunk ++ drop (length chunk) (replicate buf_len 0)

unfoldable pub read_text : Option Bytes → Outcome Bytes
unfolding buffer
read_text none = fault exit_failure
read_text (some stream) = c_string (buffer stream)

-- server.cpp: what `main` meets up to its first read. A `bind` that fails is only reported.
pub record Setup : Type 0 where
  pub socket_made : Bool
  pub bound : Bool
  pub accepted : Bool
  pub pid_written : Bool

pub data ServerPhase : Type 0 where
  reading_pid reading_done served : ServerPhase

pub record Server : Type 0 where
  pub phase : ServerPhase
  pub sent : List Bytes
  pub screen : List Bytes

unfoldable pub server_start : Setup → Outcome Server
server_start u =
    if not u.socket_made
    then fault exit_failure
    else if not u.accepted
    then fault exit_failure
    else if not u.pid_written
    then fault exit_failure
    else ok (record {
      phase = reading_pid;
      sent = codes "Pid" ∷ [];
      screen =
          codes "Waiting for the client..." ∷ codes "The server requests the client's pid" ∷ [];
    })

-- What the server does with a text. The result of writing "Sleep" is not looked at.
unfoldable pub server_text : ServerPhase → Bool → Bytes → Server → Outcome Server
server_text reading_pid written text s = ok (record {
  phase = reading_done;
  sent = if written then s.sent ++ codes "Sleep" ∷ [] else s.sent;
  screen =
      s.screen
      ++ (codes "This client has pid: " ++ text)
        ∷ codes "The server requests the client to sleep"
        ∷ [];
})
server_text reading_done written text s =
    if not (string_eq text (codes "Done"))
    then fault exit_failure
    else if not written
    then fault exit_failure
    else ok (record {
      phase = served;
      sent = s.sent ++ codes "Quit" ∷ [];
      screen = s.screen ++ codes "The server requests the client to quit" ∷ [];
    })
server_text served written text s = ok s

unfoldable pub server_step : Answer → Server → Outcome Server
unfolding read_text server_text
server_step a s = read_text a.chunk >>= λ text. server_text s.phase a.written text s

-- client.cpp.
pub data ClientPhase : Type 0 where
  reading_request reading_sleep reading_quit finished : ClientPhase

pub record Client : Type 0 where
  pub pid : ℤ
  pub client_phase : ClientPhase
  pub client_sent : List Bytes
  pub client_screen : List Bytes

unfoldable pub client_start : ℤ → Bool → Bool → Outcome Client
client_start own_pid socket_made connected =
    if not socket_made
    then fault exit_failure
    else if not connected
    then fault exit_failure
    else ok (record {
      pid = own_pid;
      client_phase = reading_request;
      client_sent = [];
      client_screen = [];
    })

-- `write(fd, response.c_str(), sizeof(pid))`: four bytes of the digits and their NUL.
unfoldable pub pid_reply : ℤ → Outcome Bytes
pid_reply own_pid =
    let response = decimal own_pid ++ 0 ∷ [] in
    if leb 4 (length response) then ok (take 4 response) else fault out_of_bounds

unfoldable pub client_write : Bool → Bytes → ClientPhase → Client → Outcome Client
client_write written message phase c =
    if written
    then ok (record c { client_phase = phase; client_sent = c.client_sent ++ message ∷ [] })
    else fault exit_failure

unfoldable pub client_print : Bytes → Client → Client
client_print text c = record c { client_screen = c.client_screen ++ text ∷ [] }

unfoldable pub client_text : ClientPhase → Bool → Bytes → Client → Outcome Client
unfolding pid_reply client_write client_print
client_text reading_request written text c =
    if string_eq text (codes "Pid")
    then (pid_reply c.pid >>= λ reply.
        client_write written reply reading_sleep
          (client_print (codes "An request for the clients pid has been recieved.") c))
    else fault exit_failure
client_text reading_sleep written text c =
    if string_eq text (codes "Sleep")
    then client_write written (codes "Done" ++ 0 ∷ []) reading_quit
        (client_print (codes "This client is going to sleep for 5 seconds...") c)
    else fault exit_failure
client_text reading_quit written text c =
    if string_eq text (codes "Quit")
    then ok (record (client_print (codes "This client is quitting.") c) { client_phase = finished })
    else fault exit_failure
client_text finished written text c = ok c

unfoldable pub client_step : Answer → Client → Outcome Client
unfolding read_text client_text
client_step a c = read_text a.chunk >>= λ text. client_text c.client_phase a.written text c

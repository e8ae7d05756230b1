-- ===== src/SelectServer.antt =====
-- Labs/Lab 9/server.cpp: a server that collects the messages of at most three clients in a queue.
-- The receiver thread's pass and the main thread's pass are steps on one `Hub`; a run is their
-- interleaving. What the kernel answers in a pass of the receiver is a `Round`.
pub mod Clients
pub mod Queue
pub mod Silence
pub mod Quit
pub mod Reach
mod Tests
use dps912_unix.Base.{
  Bool, Bytes, List, Option, Outcome, [], buffer_overflow, c_string, codes, drop, false, fault,
  if◌then◌else◌, length, ltb, none, not, ok, out_of_bounds, replicate, set, some, take, true, ◌++◌,
  ◌+◌, ◌==◌, ◌>>=◌, ◌||◌, ◌∷◌, ℕ,
}

-- The globals; a slot of `fd_client` holds `none` where `accept` failed, and -1 was stored.
pub record Hub : Type 0 where
  pub is_working : Bool
  pub fd_master : ℕ
  pub fd_client : List (Option ℕ)
  pub c_cnt : ℕ
  pub fd_max : ℕ
  pub active_fds : List ℕ
  pub mes_q : List Bytes
  pub screen : List Bytes  -- the lines of the main thread
  pub sent : List (ℕ × Bytes)

abbrev pub buf_len : ℕ
buf_len = 256

abbrev pub c_max : ℕ
c_max = 3

-- The results of `select` (the descriptors that it leaves in the set, as many as it returns), of
-- `accept` and of `recv` on a descriptor, `none` for -1.
pub record Round : Type 0 where
  pub selected : Option (List ℕ)
  pub accepted : Option ℕ
  pub received : ℕ → Option Bytes

-- FD_ISSET and FD_SET.
unfoldable pub fd_isset : ℕ → List ℕ → Bool
fd_isset fd [] = false
fd_isset fd (other ∷ rest) = fd == other || fd_isset fd rest

unfoldable pub fd_set : ℕ → List ℕ → List ℕ
fd_set fd set = if fd_isset fd set then set else set ++ fd ∷ []

-- The result of `accept` is stored before it is looked at.
unfoldable pub store_client : Option ℕ → Hub → Hub
unfolding fd_set
store_client none h = record h { fd_client = set h.fd_client h.c_cnt none }
store_client (some fd) h = record h {
  fd_client = set h.fd_client h.c_cnt (some fd);
  active_fds = fd_set fd h.active_fds;
  fd_max = if ltb h.fd_max fd then fd else h.fd_max;
  c_cnt = h.c_cnt + 1;
}

unfoldable pub accept_client : Round → Hub → Outcome Hub
accept_client r h =
    if ltb h.c_cnt (length h.fd_client)
    then ok (store_client r.accepted h)
    else fault buffer_overflow

-- `buf` after `recv`.
unfoldable pub recv_into : Option Bytes → Bytes → Bytes
recv_into none buf = buf
recv_into (some payload) buf =
    let received = take buf_len payload in received ++ drop (length received) buf

-- The loop over the clients, with the set that `select` left: what it puts into the queue.
unfoldable pub read_clients : Round → List ℕ → List (Option ℕ) → Bytes → Outcome (List Bytes)
unfolding fd_isset recv_into
read_clients r read_fds [] buf = ok []
read_clients r read_fds (none ∷ slots) buf = fault out_of_bounds
read_clients r read_fds (some fd ∷ slots) buf =
    let buf' = recv_into (r.received fd) buf in
    let read = c_string buf' >>= λ message.
    read_clients r read_fds slots buf' >>= λ more. ok (message ∷ more) in
    let pass = read_clients r read_fds slots buf in if fd_isset fd read_fds then read else pass

unfoldable pub push_all : Outcome (List Bytes) → Hub → Outcome Hub
push_all messages h = messages >>= λ more. ok (record h { mes_q = h.mes_q ++ more })

-- What follows a `select` that did not fail.
unfoldable pub dispatch : List ℕ → Round → Hub → Outcome Hub
unfolding fd_isset accept_client read_clients
dispatch read_fds r h =
    if fd_isset h.fd_master read_fds
    then accept_client r h
    else if length read_fds == 1
    then (read_clients r read_fds (take h.c_cnt h.fd_client) (replicate buf_len 0) >>= λ messages.
        ok (record h { mes_q = h.mes_q ++ messages }))
    else ok (record h { is_working = false })

unfoldable pub take_selected : Option (List ℕ) → Round → Hub → Outcome Hub
take_selected none r h = ok h
take_selected (some read_fds) r h = dispatch read_fds r h

-- A pass of the receiver thread.
unfoldable pub receiver : Round → Hub → Outcome Hub
unfolding take_selected
receiver r h = if h.is_working then take_selected r.selected r h else ok h

unfoldable pub line : Bytes → Bytes
line message = codes "The server has received the following message: " ++ message

unfoldable pub print_next : List Bytes → Hub → Hub
unfolding line
print_next [] h = h
print_next (message ∷ rest) h = record h { mes_q = rest; screen = h.screen ++ line message ∷ [] }

-- A pass of the inner loop of `main`, if there is a message.
unfoldable pub print_front : Hub → Hub
unfolding print_next
print_front h = print_next h.mes_q h

pub data Event : Type 0 where
  receives : Round → Event
  prints : Event

unfoldable pub step : Event → Hub → Outcome Hub
unfolding receiver print_front
step (receives r) h = receiver r h
step prints h = ok (print_front h)

unfoldable pub run : List Event → Hub → Outcome Hub
run [] h = ok h
run (e ∷ es) h = step e h >>= λ k. run es k

-- The globals as the receiver finds them: the socket listens, and its bit is set.
unfoldable pub start : ℕ → Hub
start fd = record {
  is_working = true;
  fd_master = fd;
  fd_client = replicate c_max (some 0);
  c_cnt = 0;
  fd_max = fd;
  active_fds = fd ∷ [];
  mes_q = [];
  screen = [];
  sent = [];
}

-- The end of `main`: "Quit" and its NUL to each client.
unfoldable pub quit_clients : List (Option ℕ) → Outcome (List (ℕ × Bytes))
quit_clients [] = ok []
quit_clients (none ∷ slots) = fault out_of_bounds
quit_clients (some fd ∷ slots) =
    quit_clients slots >>= λ more. ok ((fd, codes "Quit" ++ 0 ∷ []) ∷ more)

unfoldable pub shut_down : Hub → Outcome Hub
unfolding quit_clients
shut_down h = quit_clients (take h.c_cnt h.fd_client) >>= λ messages. ok (record h {
  sent = h.sent ++ messages;
  screen = h.screen ++ codes "NOTICE: The system is shutting down." ∷ [];
})

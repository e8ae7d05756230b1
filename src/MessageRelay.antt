-- ===== src/MessageRelay.antt =====
-- Labs/Lab 8/server.cpp: a server that passes messages on between the clients of a message queue.
-- The receiving thread and `main` are steps on one `Relay`. `Message` is the type of client.h by the
-- fields that are used here; its array is as long as `BUF_LEN` of that header says. What `printf` makes
-- of a directive that is not one of "%%", "%d", "%s" and "%n" is a parameter. The bytes behind a `Message`
-- that `msgsnd` and `msgrcv` are told to take, by a size that counts `mtype` as well, are left out.
pub mod Formats
pub mod Forwarding
pub mod Order
pub mod Quits
pub mod Shutdown
mod Tests
use dps912_unix.Base.{
  is_zero, ltb_ℤ, negsuc, number, Bool, Bytes, List, Outcome, [], c_string, codes, decimal, false,
  fault, if◌then◌else◌, not, ok, pos, store, suc, true, uninitialised, wild_pointer, zero, ℤ, ◌++◌,
  ◌+◌, ◌==◌, ◌>>=◌, ◌||◌, ◌∷◌, ℕ,
}

pub record Message : Type 0 where
  pub mtype : ℤ
  pub source : ℤ
  pub dest : ℤ
  pub buf : Bytes

-- Where `main` is: in its loop, in `pthread_join`, or at its end.
pub data Phase : Type 0 where
  serving joining finished : Phase

pub record Relay : Type 0 where
  pub is_working : Bool
  pub message_q : List Message
  pub message_send : Message
  pub sent : List Message  -- what `msgsnd` got, oldest first
  pub receiving : Bool  -- whether the receiving thread runs
  pub phase : Phase
  pub screen : List Bytes

-- What the rest of a format prints from a directive on, the text behind its '%'.
abbrev pub Directive : Type 0
Directive = Bytes → Outcome Bytes

-- `sprintf(…, format, getpid())`: the text, and whether the one argument is still to come.
unfoldable pub printf_text : Directive → ℤ → Bool → Bytes → Outcome Bytes
printf_text other pid left [] = ok []
printf_text other pid left (c ∷ []) = if c == b'%' then other [] else ok (c ∷ [])
printf_text other pid left (c ∷ d ∷ rest) =
    let plain = printf_text other pid left (d ∷ rest) >>= λ text. ok (c ∷ text) in
    let percent = printf_text other pid left rest >>= λ text. ok (b'%' ∷ text) in
    let number = printf_text other pid false rest >>= λ text. ok (decimal pid ++ text) in
    if not (c == b'%')
    then plain
    else if d == b'%'
    then percent
    else if d == b'd'
    then (if left then number else fault uninitialised)
    else if d == b's' || d == b'n'
    then fault wild_pointer
    else other (d ∷ rest)

-- `msgsnd`, which refuses a type below 1.
unfoldable pub msgsnd : Message → List Message → List Message
msgsnd message sent = if ltb_ℤ (pos 0) message.mtype then sent ++ message ∷ [] else sent

-- A pass of the inner loop of `main` on the message that it took from the queue.
unfoldable pub forward : Directive → ℤ → Message → Relay → Outcome Relay
unfolding printf_text msgsnd
forward other pid m s = do
  format ← c_string m.buf
  text ← printf_text other pid true format
  buf ← store s.message_send.buf (text ++ 0 ∷ [])
  let message : Message = record { mtype = m.dest; source = m.source; dest = m.dest; buf = buf }
  ok (record s { message_send = message; sent = msgsnd message s.sent })

-- A pass of the loop that tells the clients to quit.
unfoldable pub send_quit : ℤ → Relay → Outcome Relay
unfolding msgsnd
send_quit mtype s = do
  buf ← store s.message_send.buf (codes "Quit" ++ 0 ∷ [])
  let message : Message = record s.message_send { mtype = mtype; source = pos 4; buf = buf }
  ok (record s { message_send = message; sent = msgsnd message s.sent })

unfoldable pub send_quits : ℕ → ℕ → Relay → Outcome Relay
unfolding send_quit
send_quits i zero s = ok s
send_quits i (suc more) s = send_quit (pos (i + 1)) s >>= λ t. send_quits (i + 1) more t

-- From the test of the inner loop on.
unfoldable pub serve : Directive → ℤ → List Message → Relay → Outcome Relay
unfolding forward send_quits
serve other pid (m ∷ rest) s = forward other pid m (record s { message_q = rest })
serve other pid [] s =
    if s.is_working then ok s else (send_quits 0 3 s >>= λ t. ok (record t { phase = joining }))

unfoldable pub main_step : Directive → ℤ → Phase → Relay → Outcome Relay
unfolding serve
main_step other pid serving s = serve other pid s.message_q s
main_step other pid joining s = ok (if s.receiving then s else record s { phase = finished })
main_step other pid finished s = ok s

-- `sigHandler`; SIGINT is 2.
unfoldable pub sig_handler : ℕ → Relay → Relay
sig_handler signal s =
    if signal == 2
    then record s {
      screen = s.screen ++ codes "A signal that is of SIGINT has been received." ∷ [];
      is_working = false;
    }
    else record s {
      screen = s.screen ++ codes "A signal that is undefined has been received." ∷ [];
    }

-- A pass of `recv`: what `msgrcv` left in `mess` is pushed, and the flag is tested.
unfoldable pub recv : Message → Relay → Relay
recv mess s =
    if s.receiving
    then record s { message_q = s.message_q ++ mess ∷ []; receiving = s.is_working }
    else s

-- A message of type 4 arrives; a signal is handled by the main thread, or by the receiving thread, whose
-- `msgrcv` then fails and leaves `mess` as it was on the stack; `main` takes a step.
pub data Event : Type 0 where
  arrives : Message → Event
  signals : ℕ → Event
  breaks : ℕ → Message → Event
  mains : Event

unfoldable pub step : Directive → ℤ → Event → Relay → Outcome Relay
unfolding main_step sig_handler recv
step other pid (arrives m) s = ok (recv m s)
step other pid (signals signal) s = ok (sig_handler signal s)
step other pid (breaks signal m) s = ok (recv m (sig_handler signal s))
step other pid mains s = main_step other pid s.phase s

unfoldable pub run : Directive → ℤ → List Event → Relay → Outcome Relay
run other pid [] s = ok s
run other pid (e ∷ es) s = step other pid e s >>= λ t. run other pid es t

-- What `main` returns early with, or the relay that it starts.
pub data Started : Type 0 where
  returns : ℤ → Started
  relays : Relay → Started

-- The start of `main`: the results of `sigaction` and `pthread_create`, and what `message_send` happens to
-- hold. Without the thread, `close(first)` reads a variable that nothing was stored in.
unfoldable pub start : ℤ → ℤ → Message → Outcome Started
start signal_action second message_send =
    let ready = relays (record {
      is_working = true;
      message_q = [];
      message_send = message_send;
      sent = [];
      receiving = true;
      phase = serving;
      screen = codes "It's ready to recieve the messages." ∷ [];
    }) in
    if ltb_ℤ signal_action (pos 0)
    then ok (returns (negsuc 0))
    else if not (is_zero second)
    then fault uninitialised
    else ok ready

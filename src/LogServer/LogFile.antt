-- ===== src/LogServer/LogFile.antt =====
-- Assignments/A2/LogServer.cpp, `receiveThread`: what the datagrams do to the log file.
use dps912_unix.Datagrams.{
  Carries-empty, buf_len, c_string-recv_into, Arrival, Carries, cleared, datagram, nothing,
  recv_into, recv_sender, recv_size, Address,
}
use dps912_unix.Base.{
  append_assoc, fault, null_file, Bool, ap, append-nil, length, map, sym, take, Bool-cases, Option,
  decimal, if◌then◌else◌, inl, inr, ltb_ℤ, pos, refl, ◌>>=◌, ◌∙◌, Bytes, List, [], arith, c_string,
  false, ok, some, true, ◌++◌, ◌∷◌, ◌≡◌, ℕ,
}
use dps912_unix.LogServer.{
  open_append, run, write_arrival, contents, log_arrival, receive_round, round, step, Server,
}

-- A receive thread that runs, holds nothing, and may open its file.
pub record IsReady (s : Server) : Type 0 where
  pub working : s.is_working ≡ true
  pub unlocked : s.locked ≡ false
  pub unblocked : s.blocked ≡ false
  pub allowed : s.writable ≡ true

-- The texts that a list of arrivals brings, one behind the other.
pub data Brings : List Arrival → Bytes → Type 0 where
  silence : Brings [] []
  idle :
      {arrivals : List Arrival} {texts : Bytes}
      → Brings arrivals texts
      → Brings (nothing ∷ arrivals) texts
  entry :
      {arrivals : List Arrival} {texts : Bytes} (from : Address) (payload text : Bytes)
      → Carries payload text
      → Brings arrivals texts
      → Brings (datagram from payload ∷ arrivals) (text ++ texts)

abbrev pub Logs : Server → Arrival → Bytes → Type 0
Logs s a text =
    (t : Server) × (step (round a) s ≡ ok t)
    × IsReady t
    × (t.log_file ≡ some (contents s.log_file ++ text))

step_round-IsReady :
    (a : Arrival) (s : Server)
    → IsReady s
    → step (round a) s ≡ log_arrival a (record s { buf = cleared; locked = true })
unfolding step receive_round
step_round-IsReady a s ready = ground arith

-- The state after a round, given the file that it leaves.
abbrev after : Arrival → Option Bytes → Server → Server
after a file s = record s {
  buf = recv_into a s.buf;
  client_address = recv_sender a s.client_address;
  screen = s.screen ++ (decimal (recv_size a) ++ 10 ∷ []);
  log_file = file;
  locked = false;
}

write_arrival_text :
    (a : Arrival) (text : Bytes) (s : Server)
    → c_string (recv_into a s.buf) ≡ ok text
    → write_arrival true a s
      ≡ ok (
          after a
            (if ltb_ℤ (pos 0) (recv_size a) then some (contents s.log_file ++ text) else s.log_file)
            s)
unfolding write_arrival
write_arrival_text a text s e =
    rw (e, ◌>>=◌)
      (elim (Bool-cases (ltb_ℤ (pos 0) (recv_size a))) [
        | inl some_bytes ↦ rw some_bytes refl
        | inr no_bytes ↦ rw no_bytes refl
      ])

open_append_allowed :
    (s : Server)
    → s.writable ≡ true
    → open_append s ≡ (true, record s { log_file = some (contents s.log_file) })
unfolding open_append
open_append_allowed s h = simp h

-- A round with a text adds it to the file; one with no bytes has an empty text.
log_arrival_text :
    (a : Arrival) (text : Bytes) (s : Server)
    → IsReady s
    → c_string (recv_into a cleared) ≡ ok text
    → (ltb_ℤ (pos 0) (recv_size a) ≡ false → text ≡ [])
    → Logs s a text
unfolding log_arrival contents
log_arrival_text a text s ready e no_bytes =
    let taken = record s { buf = cleared; locked = true } in
    let opened = record taken { log_file = some (contents s.log_file) } in
    let grown =
      if ltb_ℤ (pos 0) (recv_size a)
      then some (contents s.log_file ++ text)
      else some (contents s.log_file) in
    (
      after a grown opened,
      step_round-IsReady a s ready
          ∙ ap (λ (p : Bool × Server). write_arrival p.0 a p.1)
              (open_append_allowed taken ready.allowed)
          ∙ write_arrival_text a text opened e,
      record {
        working = ready.working;
        unlocked = refl;
        unblocked = ready.unblocked;
        allowed = ready.allowed;
      },
      elim (Bool-cases (ltb_ℤ (pos 0) (recv_size a))) [
        | inl some_bytes ↦ rw some_bytes refl
        | inr none_there ↦
            rw (none_there, no_bytes none_there, append-nil (contents s.log_file)) refl
      ],
    )

nothing-Logs : (s : Server) → IsReady s → Logs s nothing []
unfolding recv_into recv_size c_string
nothing-Logs s ready = log_arrival_text nothing [] s ready refl (λ _. refl)

pub datagram-Logs :
    (from : Address) (payload text : Bytes) (s : Server)
    → Carries payload text
    → IsReady s
    → Logs s (datagram from payload) text
unfolding recv_size
datagram-Logs from payload text s carries ready =
    log_arrival_text (datagram from payload) text s ready
      (c_string-recv_into from payload text carries)
      λ h. Carries-empty carries (ltb_0 (length (take buf_len payload)) h)
  where
    ltb_0 : (n : ℕ) → ltb_ℤ (pos 0) (pos n) ≡ false → n ≡ 0
    ltb_0 n h = ground arith

joined :
    (old text texts : Bytes) {o : Option Bytes} {new : Bytes}
    → o ≡ some (old ++ text)
    → new ≡ contents o ++ texts
    → new ≡ old ++ (text ++ texts)
unfolding contents
joined old text texts f g = g ∙ ap (λ o. contents o ++ texts) f ∙ append_assoc old text texts

-- The datagrams that a ready receiver gets are in the log file one behind the other, in their order,
-- behind what stood there, each up to its NUL; idle rounds add nothing. The rounds end without fault,
-- and the receiver is ready again.
pub log_file_grows :
    {arrivals : List Arrival} {texts : Bytes} (s : Server)
    → Brings arrivals texts
    → IsReady s
    → (t : Server) × (run (map round arrivals) s ≡ ok t)
      × IsReady t
      × (contents t.log_file ≡ contents s.log_file ++ texts)
unfolding run
log_file_grows s silence ready = (s, refl, ready, sym (append-nil _))
log_file_grows s (idle {texts = texts} rest) ready =
    let (t, e, r, f) = nothing-Logs s ready in
    let (u, e', r', f') = log_file_grows t rest r in
    (u, rw (e, ◌>>=◌) e', r', joined (contents s.log_file) [] texts f f')
log_file_grows s (entry {texts = texts} from payload text carries rest) ready =
    let (t, e, r, f) = datagram-Logs from payload text s carries ready in
    let (u, e', r', f') = log_file_grows t rest r in
    (u, rw (e, ◌>>=◌) e', r', joined (contents s.log_file) text texts f f')

write_arrival_null :
    (a : Arrival) (text : Bytes) (s : Server)
    → c_string (recv_into a s.buf) ≡ ok text
    → write_arrival false a s ≡ fault null_file
unfolding write_arrival
write_arrival_null a text s e =
    rw (e, ◌>>=◌)
      (elim (Bool-cases (ltb_ℤ (pos 0) (recv_size a))) [
        | inl some_bytes ↦ rw some_bytes refl
        | inr no_bytes ↦ rw no_bytes refl
      ])

open_append_refused : (s : Server) → s.writable ≡ false → open_append s ≡ (false, s)
unfolding open_append
open_append_refused s h = simp h

-- When the log file cannot be opened, the round of a thread that runs and holds nothing calls stdio on
-- a null stream, whether a text has come or the wait has timed out.
pub unwritable_round :
    (a : Arrival) (text : Bytes) (s : Server)
    → s.is_working ≡ true
    → s.locked ≡ false
    → s.blocked ≡ false
    → s.writable ≡ false
    → c_string (recv_into a cleared) ≡ ok text
    → step (round a) s ≡ fault null_file
unfolding step receive_round log_arrival
unwritable_round a text s working unlocked unblocked refused e =
    let taken = record s { buf = cleared; locked = true } in
    running
    ∙ ap (λ (p : Bool × Server). write_arrival p.0 a p.1) (open_append_refused taken refused)
    ∙ write_arrival_null a text taken e
  where
    running : step (round a) s ≡ log_arrival a (record s { buf = cleared; locked = true })
    running = ground arith

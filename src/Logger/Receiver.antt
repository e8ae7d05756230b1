-- ===== src/Logger/Receiver.antt =====
-- Assignments/A2/Logger.cpp, the loop of `receiveThread` over the datagrams that come.
use dps912_unix.Datagrams.{
  Arrival, Carries, cleared, datagram, nothing, recv_into, recv_sender, recv_size, Address,
}
use dps912_unix.Base.{
  codes, string_ge, Bool-cases, Bytes, List, [], ap, arith, c_string, false, inl, inr, length, map,
  none, ok, refl, some, true, ◌<◌, ◌>>=◌, ◌∙◌, ◌∷◌, ◌≡◌,
}
use dps912_unix.Logger.{
  critical, debug, LogLevel, apply_level, clear_buf, level_of_stat, read_command, receive_round,
  recv_from, round, run, stat_of, step, Logger,
}
use dps912_unix.Logger.Commands.{level_of_stat_two_tests}
use dps912_unix.Logger.Rounds.{receive_round_text, heard}

-- An unrecognised command keeps the mutex, so the next round waits for it for ever.
abbrev pub IsDeaf : Logger → Type 0
IsDeaf s = s.locked ≡ true

round-IsDeaf :
    (a : Arrival) (s : Logger)
    → IsDeaf s
    → (t : Logger) × (step (round a) s ≡ ok t) × IsDeaf t × (t.level_log ≡ s.level_log)
unfolding step receive_round clear_buf
round-IsDeaf a s deaf = elim (Bool-cases s.blocked) [
  | inl b ↦ (s, rw b, deaf, refl)
  | inr b ↦ elim (Bool-cases s.is_working) [
    | inl w ↦ (record s { buf = cleared; blocked = true }, rw (b, w, deaf) refl, deaf, refl)
    | inr w ↦ (s, rw (b, w) refl, deaf, refl)
  ]
]

rounds-IsDeaf :
    (arrivals : List Arrival) (s : Logger)
    → IsDeaf s
    → (t : Logger) × (run (map round arrivals) s ≡ ok t) × (t.level_log ≡ s.level_log)
unfolding run
rounds-IsDeaf [] s deaf = (s, refl, refl)
rounds-IsDeaf (a ∷ arrivals) s deaf =
    let (t, e, d, l) = round-IsDeaf a s deaf in
    let (u, e', l') = rounds-IsDeaf arrivals t d in (u, rw (e, ◌>>=◌) e', l' ∙ l)

-- A receive thread that runs and holds nothing.
pub record IsReady (s : Logger) : Type 0 where
  pub working : s.is_working ≡ true
  pub unlocked : s.locked ≡ false
  pub unblocked : s.blocked ≡ false

step_round-IsReady : (a : Arrival) (s : Logger) → IsReady s → step (round a) s ≡ receive_round a s
unfolding step
step_round-IsReady a s ready = ground arith

-- Once a ready receiver has got one command below "CRITICAL", no later datagram changes the filter
-- level, whatever it holds, and the process goes on without end or fault.
pub unrecognised_deafens :
    (from : Address) (payload text stat : Bytes) (arrivals : List Arrival) (s : Logger)
    → IsReady s
    → Carries payload text
    → 0 < length payload
    → stat_of text ≡ ok stat
    → level_of_stat stat ≡ none
    → (t : Logger) × (run (map round (datagram from payload ∷ arrivals)) s ≡ ok t)
      × (t.level_log ≡ s.level_log)
unfolding run apply_level
unrecognised_deafens from payload text stat arrivals s ready carries some_bytes e unknown =
    let (t, e', l) = rounds-IsDeaf arrivals (heard from payload s) refl in
    let first : step (round (datagram from payload)) s ≡ ok (heard from payload s) =
      step_round-IsReady _ s ready
      ∙ receive_round_text from payload text s carries some_bytes ready.unlocked stat e
      ∙ ap (λ o. ok (apply_level o (heard from payload s))) unknown in
    (t, rw (first, ◌>>=◌) e', l)

-- What the ladder makes of a text, by its place in the order of byte strings: all texts from "DEBUG" on, which
-- are "WARNING" and "ERROR" too, stand for DEBUG, and those from "CRITICAL" to below "DEBUG" for CRITICAL.
pub data Stands : Bytes → LogLevel → Type 0 where
  from_debug : {stat : Bytes} → string_ge stat (codes "DEBUG") ≡ true → Stands stat debug
  from_critical :
      {stat : Bytes}
      → string_ge stat (codes "DEBUG") ≡ false
      → string_ge stat (codes "CRITICAL") ≡ true
      → Stands stat critical

level_of_stat-Stands :
    {stat : Bytes} {level : LogLevel} → Stands stat level → level_of_stat stat ≡ some level
level_of_stat-Stands {stat} (from_debug high) = level_of_stat_two_tests stat ∙ rw high refl
level_of_stat-Stands {stat} (from_critical low high) =
    level_of_stat_two_tests stat ∙ rw (low, high) refl

-- What a receiver hears in a list of arrivals: nothing, or recognised commands that fit the buffer;
-- `Hears arrivals first last` moves the level from `first` to the last one commanded.
pub data Hears : List Arrival → LogLevel → LogLevel → Type 0 where
  silence : {level : LogLevel} → Hears [] level level
  idle :
      {arrivals : List Arrival} {first last : LogLevel}
      → Hears arrivals first last
      → Hears (nothing ∷ arrivals) first last
  command :
      {arrivals : List Arrival} {first last : LogLevel} (from : Address) (payload text stat : Bytes)
      (level : LogLevel)
      → Carries payload text
      → 0 < length payload
      → stat_of text ≡ ok stat
      → Stands stat level
      → Hears arrivals level last
      → Hears (datagram from payload ∷ arrivals) first last

idle-IsReady :
    (s : Logger)
    → IsReady s
    → (t : Logger) × (step (round nothing) s ≡ ok t) × IsReady t × (t.level_log ≡ s.level_log)
unfolding receive_round recv_from recv_into recv_size recv_sender clear_buf c_string read_command
idle-IsReady s ready = (
  record s { buf = cleared; locked = false },
  step_round-IsReady nothing s ready ∙ rw ready.unlocked refl,
  ground arith,
  refl,
)

pub command-IsReady :
    (from : Address) (payload text stat : Bytes) (level : LogLevel) (s : Logger)
    → IsReady s
    → Carries payload text
    → 0 < length payload
    → stat_of text ≡ ok stat
    → level_of_stat stat ≡ some level
    → (t : Logger) × (step (round (datagram from payload)) s ≡ ok t)
      × IsReady t
      × (t.level_log ≡ level)
unfolding apply_level
command-IsReady from payload text stat level s ready carries some_bytes e known = (
  apply_level (some level) (heard from payload s),
  step_round-IsReady _ s ready
      ∙ receive_round_text from payload text s carries some_bytes ready.unlocked stat e
      ∙ ap (λ o. ok (apply_level o (heard from payload s))) known,
  record { working = ready.working; unlocked = refl; unblocked = ready.unblocked },
  refl,
)

-- A ready receiver that hears only silence, and commands that fit its buffer and are at or above
-- "CRITICAL" in the order of byte strings, goes through all arrivals without fault and is ready again.
-- The last command decides the level: it is CRITICAL if the command's text is below "DEBUG", and DEBUG
-- if not, as for the texts "WARNING" and "ERROR"; with no command the level stays.
pub receiver_takes :
    {arrivals : List Arrival} {first last : LogLevel} (s : Logger)
    → Hears arrivals first last
    → IsReady s
    → s.level_log ≡ first
    → (t : Logger) × (run (map round arrivals) s ≡ ok t) × IsReady t × (t.level_log ≡ last)
unfolding run
receiver_takes s silence ready e = (s, refl, ready, e)
receiver_takes s (idle h) ready e =
    let (t, e', r, l) = idle-IsReady s ready in
    let (u, e'', r', l') = receiver_takes t h r (l ∙ e) in (u, rw (e', ◌>>=◌) e'', r', l')
receiver_takes s (command from payload text stat level carries some_bytes known stands h) ready e =
    let (t, e', r, l) =
      command-IsReady from payload text stat level s ready carries some_bytes known
        (level_of_stat-Stands stands) in
    let (u, e'', r', l') = receiver_takes t h r l in (u, rw (e', ◌>>=◌) e'', r', l')

-- ===== src/MessageRelay/Shutdown.antt =====
-- Labs/Lab 8/server.cpp, its end after SIGINT.
use dps912_unix.Base.{
  All, Bool-cases, inl, inr, ◌==◌, List, [], ap, codes, false, if◌then◌else◌, length, ok, pos, refl,
  true, ℤ, ◌++◌, ◌<◌, ◌>>=◌, ◌∙◌, ◌∷◌, ◌≡◌, ℕ,
}
use dps912_unix.MessageRelay.Forwarding.{recv_receiving}
use dps912_unix.MessageRelay.Order.{run-append}
use dps912_unix.MessageRelay.Quits.{quit, quits, send_quits_lem}
use dps912_unix.MessageRelay.{
  Event, breaks, recv, arrives, Directive, Relay, finished, joining, main_step, mains, run, serve,
  serving, sig_handler, signals, step, Message,
}

-- `main` on its way to the end.
unfoldable pub interrupted : Relay → Relay
unfolding quit quits
interrupted s = record s {
  screen = s.screen ++ codes "A signal that is of SIGINT has been received." ∷ [];
  is_working = false;
  message_send = quit (pos 3) (quit (pos 2) (quit (pos 1) s.message_send));
  sent = s.sent ++ quits s.message_send;
  phase = joining;
}

joined :
    (other : Directive) (pid : ℤ) (s : Relay)
    → s.phase ≡ serving
    → s.message_q ≡ []
    → 4 < length s.message_send.buf
    → run other pid (signals 2 ∷ mains ∷ []) s ≡ ok (interrupted s)
unfolding run step main_step sig_handler interrupted serve
joined other pid s serves waiting room =
    let u = record s {
      screen = s.screen ++ codes "A signal that is of SIGINT has been received." ∷ [];
      is_working = false;
    } in
    ap (λ p. main_step other pid p u >>= λ t. ok t) serves
    ∙ ap (λ q. serve other pid q u >>= λ t. ok t) waiting
    ∙ ap (λ o. (o >>= λ t. let v : Relay = record t { phase = joining } in ok v) >>= λ t. ok t)
        (send_quits_lem u room)

-- Signals that the main thread handles, and passes of `main`.
unfoldable pub IsLocal : Event → Type 0
IsLocal (arrives m) = ⊥
IsLocal (signals signal) = Unit
IsLocal (breaks signal m) = ⊥
IsLocal mains = Unit

-- A server that is told to stop and waits for its receiving thread, with what it has sent.
pub record Joins (sent : List Message) (s : Relay) : Type 0 where
  pub stopped : s.is_working ≡ false
  pub joins : s.phase ≡ joining
  pub receives : s.receiving ≡ true
  pub waiting : s.message_q ≡ []
  pub told : s.sent ≡ sent

Joins-signals :
    (sent : List Message) (signal : ℕ) (s : Relay)
    → Joins sent s
    → Joins sent (sig_handler signal s)
unfolding sig_handler
Joins-signals sent signal s j = elim (Bool-cases (signal == 2)) [
  | inl e ↦ rw e (record {
    stopped = refl;
    joins = j.joins;
    receives = j.receives;
    waiting = j.waiting;
    told = j.told;
  })
  | inr e ↦ rw e (record {
    stopped = j.stopped;
    joins = j.joins;
    receives = j.receives;
    waiting = j.waiting;
    told = j.told;
  })
]

main_step-Joins :
    (other : Directive) (pid : ℤ) (sent : List Message) (s : Relay)
    → Joins sent s
    → main_step other pid s.phase s ≡ ok s
unfolding main_step
main_step-Joins other pid sent s j =
    ap (λ p. main_step other pid p s) j.joins
    ∙ ap (λ b. ok (if b then s else record s { phase = finished })) j.receives

run-Joins :
    (other : Directive) (pid : ℤ) (sent : List Message) (es : List Event) (s : Relay)
    → All IsLocal es
    → Joins sent s
    → (t : Relay) × (run other pid es s ≡ ok t) × Joins sent t
unfolding run step IsLocal
run-Joins other pid sent [] s locals j = (s, refl, j)
run-Joins other pid sent (arrives m ∷ es) s locals j = absurd locals.0
run-Joins other pid sent (signals signal ∷ es) s locals j =
    run-Joins other pid sent es (sig_handler signal s) locals.1 (Joins-signals sent signal s j)
run-Joins other pid sent (breaks signal m ∷ es) s locals j = absurd locals.0
run-Joins other pid sent (mains ∷ es) s locals j =
    let (t, e, k) = run-Joins other pid sent es s locals.1 j in
    (t, ap (λ o. o >>= λ t. run other pid es t) (main_step-Joins other pid sent s j) ∙ e, k)

-- What ends the receiving thread: a message, or a signal that it handles itself, with what its `mess` holds.
pub data Releases : Event → Message → Type 0 where
  message : (m : Message) → Releases (arrives m) m
  broken : (signal : ℕ) (m : Message) → Releases (breaks signal m) m

-- A pass of the receiving thread and one of `main`.
recv_last :
    (other : Directive) (pid : ℤ) (sent : List Message) (m : Message) (s : Relay)
    → Joins sent s
    → (t : Relay) × (main_step other pid (recv m s).phase (recv m s) ≡ ok t)
      × (t.phase ≡ finished)
      × (t.message_q ≡ m ∷ [])
      × (t.sent ≡ sent)
unfolding main_step
recv_last other pid sent m s j =
    let u = record s { message_q = s.message_q ++ m ∷ []; receiving = s.is_working } in
    (
      record u { phase = finished },
      ap (λ t. main_step other pid t.phase t) (recv_receiving m s j.receives)
          ∙ ap (λ p. main_step other pid p u) j.joins
          ∙ ap (λ b. ok (if b then u else record u { phase = finished })) j.stopped,
      refl,
      ap (λ q. q ++ m ∷ []) j.waiting,
      j.told,
    )

release :
    (other : Directive) (pid : ℤ) (sent : List Message) (e : Event) (m : Message) (s : Relay)
    → Releases e m
    → Joins sent s
    → (t : Relay) × (run other pid (e ∷ mains ∷ []) s ≡ ok t)
      × (t.phase ≡ finished)
      × (t.message_q ≡ m ∷ [])
      × (t.sent ≡ sent)
unfolding run step
release other pid sent e m s (message _) j =
    let (t, result, ended, pushed, told) = recv_last other pid sent m s j in
    (t, ap (λ o. o >>= λ t. ok t) result, ended, pushed, told)
release other pid sent e m s (broken signal _) j =
    let (t, result, ended, pushed, told) =
      recv_last other pid sent m (sig_handler signal s) (Joins-signals sent signal s j) in
    (t, ap (λ o. o >>= λ t. ok t) result, ended, pushed, told)

-- After a SIGINT that `main` handles with nothing waiting, its next pass tells the clients 1, 2 and 3 to quit.
-- Then it waits for the receiving thread through any number of its own passes and any signals that it handles,
-- and sends nothing more. One more message, or a signal that the receiving thread handles, lets it end in its
-- next pass, and what that thread has pushed is not forwarded.
pub interrupted_waits :
    (other : Directive) (pid : ℤ) (es : List Event) (e : Event) (m : Message) (s : Relay)
    → s.phase ≡ serving
    → s.message_q ≡ []
    → s.receiving ≡ true
    → 4 < length s.message_send.buf
    → All IsLocal es
    → Releases e m
    → (t : Relay) × (u : Relay) × (run other pid (signals 2 ∷ mains ∷ es) s ≡ ok t)
      × Joins (s.sent ++ quits s.message_send) t
      × (run other pid ((signals 2 ∷ mains ∷ es) ++ e ∷ mains ∷ []) s ≡ ok u)
      × (u.phase ≡ finished)
      × (u.message_q ≡ m ∷ [])
      × (u.sent ≡ s.sent ++ quits s.message_send)
unfolding interrupted
interrupted_waits other pid es e m s serves waiting receives room locals releases =
    let sent = s.sent ++ quits s.message_send in
    let first : Joins sent (interrupted s) = record {
      stopped = refl;
      joins = refl;
      receives = receives;
      waiting = waiting;
      told = refl;
    } in
    let (t, result, j) = run-Joins other pid sent es (interrupted s) locals first in
    let stays : run other pid (signals 2 ∷ mains ∷ es) s ≡ ok t =
      run-append other pid (signals 2 ∷ mains ∷ []) es s
      ∙ ap (λ o. o >>= λ t. run other pid es t) (joined other pid s serves waiting room)
      ∙ result in
    let (u, ends, ended, pushed, told) = release other pid sent e m t releases j in
    (
      t,
      u,
      stays,
      j,
      run-append other pid (signals 2 ∷ mains ∷ es) (e ∷ mains ∷ []) s
          ∙ ap (λ o. o >>= λ t. run other pid (e ∷ mains ∷ []) t) stays
          ∙ ends,
      ended,
      pushed,
      told,
    )

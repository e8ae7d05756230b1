-- ===== src/MessageRelay/Order.antt =====
-- Labs/Lab 8/server.cpp, the messages that go through the server while it serves.
use dps912_unix.MessageRelay.Forwarding.{
  IsPlain, AllForwards, none_left, arrived, Quiet, Relays, Relays-recv, Relays-main,
}
use mathlib.Core.Path.{subst}
use dps912_unix.Base.{
  codes, ltb_of_le, negsuc, pos, Outcome, fault, length-append, ◌+◌, ap, append-nil, append_assoc,
  arith, if◌then◌else◌, refl, replicate, suc, sym, zero, ◌>>=◌, ◌∙◌, ◌≤◌, All, List, [], length, ok,
  true, ℤ, ◌++◌, ◌∷◌, ◌≡◌, ℕ,
}
use dps912_unix.MessageRelay.{
  relays, returns, start, run, step, Directive, Event, Relay, arrives, breaks, mains, recv, serving,
  signals, Message,
}

pub run-append :
    (other : Directive) (pid : ℤ) (es fs : List Event) (s : Relay)
    → run other pid (es ++ fs) s ≡ (run other pid es s >>= λ t. run other pid fs t)
unfolding run
run-append other pid [] fs s = refl
run-append other pid (e ∷ es) fs s = onward (λ t. run-append other pid es fs t) (step other pid e s)
  where
    onward :
        ((t : Relay)
          → run other pid (es ++ fs) t ≡ (run other pid es t >>= λ t. run other pid fs t))
        → (o : Outcome Relay)
        → (o >>= λ t. run other pid (es ++ fs) t)
          ≡ ((o >>= λ t. run other pid es t) >>= λ t. run other pid fs t)
    onward ih (fault reason) = refl
    onward ih (ok t) = ih t

-- Any quiet run.
Relays-run :
    (other : Directive) (pid : ℤ) (n : ℕ) (es : List Event) (received : List Message) (s : Relay)
    → All (Quiet n) es
    → Relays n received s
    → (t : Relay) × (run other pid es s ≡ ok t) × Relays n (received ++ arrived es) t
unfolding run step arrived
Relays-run other pid n [] received s q r =
    (s, refl, subst (λ l. Relays n l s) (sym (append-nil received)) r)
Relays-run other pid n (arrives m ∷ es) received s q r =
    let (t, result, kept) =
      Relays-run other pid n es (received ++ m ∷ []) (recv m s) q.1
        (Relays-recv n received m s q.0 r) in
    (t, result, subst (λ l. Relays n l t) (append_assoc received (m ∷ []) (arrived es)) kept)
Relays-run other pid n (signals signal ∷ es) received s q r = absurd q.0
Relays-run other pid n (breaks signal m ∷ es) received s q r = absurd q.0
Relays-run other pid n (mains ∷ es) received s q r =
    let (u, first, _, kept) = Relays-main other pid n received s r in
    let (t, result, rest) = Relays-run other pid n es received u q.1 kept in
    (t, ap (λ o. o >>= λ t. run other pid es t) first ∙ result, rest)

-- Enough passes of `main` empty the queue.
emptied :
    (other : Directive) (pid : ℤ) (n more : ℕ) (received : List Message) (s : Relay)
    → Relays n received s
    → length s.message_q ≤ more
    → (t : Relay) × (run other pid (replicate more mains) s ≡ ok t)
      × (t.message_q ≡ [])
      × Relays n received t
unfolding run step
emptied other pid n zero received s r h = (s, refl, nothing s.message_q h, r)
  where
    nothing : (q : List Message) → length q ≤ 0 → q ≡ []
    nothing [] h = refl
    nothing (m ∷ q) h = absurd (omega arith)
emptied other pid n (suc more) received s r h =
    let (u, first, shorter, kept) = Relays-main other pid n received s r in
    let (t, result, gone, rest) =
      emptied other pid n more received u kept (omega (arith, shorter)) in
    (t, ap (λ o. o >>= λ t. run other pid (replicate more mains) t) first ∙ result, gone, rest)

-- From a server that works, has nothing waiting and has sent nothing.
messages_forwarded :
    (other : Directive) (pid : ℤ) (more : ℕ) (es : List Event) (s : Relay)
    → s.is_working ≡ true
    → s.receiving ≡ true
    → s.phase ≡ serving
    → s.message_q ≡ []
    → s.sent ≡ []
    → All (Quiet (length s.message_send.buf)) es
    → length (arrived es) ≤ more
    → (t : Relay) × (run other pid (es ++ replicate more mains) s ≡ ok t)
      × (t.message_q ≡ [])
      × AllForwards t.sent (arrived es)
messages_forwarded other pid more es s working receives serves waiting sent quiet enough =
    let r : Relays (length s.message_send.buf) [] s = record {
      working = working;
      receives = receives;
      serves = serves;
      size = refl;
      done = [];
      parts = waiting;
      forwarded = subst (λ l. AllForwards l []) (sym sent) none_left;
      plain = subst (All (IsPlain (length s.message_send.buf))) (sym waiting) tt;
    } in
    let (u, first, kept) = Relays-run other pid (length s.message_send.buf) es [] s quiet r in
    let few : length kept.done + length u.message_q ≡ length (arrived es) =
      sym (length-append kept.done u.message_q) ∙ ap length kept.parts in
    let (t, second, gone, rest) =
      emptied other pid (length s.message_send.buf) more (arrived es) u kept (omega arith) in
    let whole : rest.done ≡ arrived es =
      sym (append-nil rest.done) ∙ ap (λ q. rest.done ++ q) (sym gone) ∙ rest.parts in
    (
      t,
      run-append other pid es (replicate more mains) s
          ∙ ap (λ o. o >>= λ u. run other pid (replicate more mains) u) first
          ∙ second,
      gone,
      subst (AllForwards t.sent) whole rest.forwarded,
    )

-- The server that `main` starts when `sigaction` and `pthread_create` succeed forwards the messages that
-- come, at any times between its passes, each once and in the order they came in, to the receiver that they
-- name, with their source and text unchanged, when after the last of them `main` makes at least as many
-- passes as messages have come. Their texts have to be shorter than the array and without a '%', and their
-- receivers' numbers positive.
pub server_forwards :
    (other : Directive) (pid : ℤ) (result more : ℕ) (es : List Event) (m : Message)
    → All (Quiet (length m.buf)) es
    → length (arrived es) ≤ more
    → (s : Relay) × (start (pos result) (pos 0) m ≡ ok (relays s))
      × (t : Relay) × (run other pid (es ++ replicate more mains) s ≡ ok t)
      × (t.message_q ≡ [])
      × AllForwards t.sent (arrived es)
unfolding start
server_forwards other pid result more es m quiet enough =
    let s : Relay = record {
      is_working = true;
      message_q = [];
      message_send = m;
      sent = [];
      receiving = true;
      phase = serving;
      screen = codes "It's ready to recieve the messages." ∷ [];
    } in
    let (t, result', gone, forwarded) =
      messages_forwarded other pid more es s refl refl refl refl refl quiet enough in
    (
      s,
      ap (λ b. if b then ok (returns (negsuc 0)) else ok (relays s))
          (ltb_of_le (result + 0) (0 + 0) (omega arith)),
      t,
      result',
      gone,
      forwarded,
    )

-- ===== src/IntfMonitor/Orphans.antt =====
-- Assignments/A1/intfMonitor.cpp when netMonitor is gone.
use dps912_unix.Messages.{filled}
use dps912_unix.Base.{
  Bool, Bytes, append-nil, append_assoc, false, sym, All, List, [], ap, codes, if◌then◌else◌, inl,
  inr, ok, refl, string_eq, true, ◌++◌, ◌>>=◌, ◌∙◌, ◌∷◌, ◌≡◌, ◌⊎◌,
}
use dps912_unix.IntfMonitor.{
  run_phase, Stats, World, again, answer, done, gather, gathering, print_line, read_stream, run,
  step, waiting, Monitor,
}
use dps912_unix.IntfMonitor.Protocol.{step-waiting}

-- What the branch for an unknown command prints.
abbrev pub unknown : Bytes
unknown = codes "Command not known" ++ 10 ∷ []

-- A pass with nothing in the stream of a peer that is gone.
step_orphaned :
    (t : Stats) (w : World) (m : Monitor)
    → m.phase ≡ waiting t
    → m.inbox ++ w.arriving ≡ []
    → w.peer_closed ≡ true
    → m.is_working ≡ true
    → (n : Monitor) × (step w m ≡ ok n)
      × (n.phase ≡ gathering)
      × (n.inbox ≡ [])
      × (n.is_working ≡ true)
      × (n.outbox ≡ m.outbox)
      × (n.screen ≡ m.screen ++ unknown)
unfolding read_stream answer string_eq
step_orphaned t w m h e closed working = (
  again (
      print_line (codes "Command not known")
        (record m { inbox = m.inbox ++ w.arriving; buffer = filled [] m.buffer })),
  step-waiting t w m h e ∙ rw closed refl,
  unfold again print_line in ap (λ b. if b then gathering else done) working,
  unfold again print_line in e,
  unfold again print_line in working,
  unfold again print_line in refl,
  unfold again print_line in refl,
)

-- Before or while it waits for a message.
abbrev pub Between : Monitor → Type 0
Between m = (m.phase ≡ gathering) ⊎ ((t : Stats) × (m.phase ≡ waiting t))

-- The lines of a run: one for each time that the monitor waits.
unfoldable pub complaints : Bool → List World → Bytes
complaints late [] = []
complaints false (w ∷ ws) = complaints true ws
complaints true (w ∷ ws) = unknown ++ complaints false ws

unfoldable pub waits : (m : Monitor) → Between m → Bool
waits m (inl g) = false
waits m (inr h) = true

pub step-gathering :
    (w : World) (m : Monitor)
    → m.phase ≡ gathering
    → step w m
      ≡ ok (record m { inbox = m.inbox ++ w.arriving; phase = waiting (gather w.files m.folders) })
unfolding step
step-gathering w m h = ap (λ p. run_phase p w (record m { inbox = m.inbox ++ w.arriving })) h

-- Worlds in which the peer is gone: nothing arrives.
abbrev pub Orphans : List World → Type 0
Orphans = All λ w. (w.arriving ≡ []) × (w.peer_closed ≡ true)

-- A monitor whose peer has gone without "Shut Down", and whose stream is empty, never stops: it takes
-- the end of the stream for a command, every second step it prints "Command not known" and nothing else, and
-- it sends nothing.
pub orphan_never_ends :
    (ws : List World) (m : Monitor) (between : Between m)
    → Orphans ws
    → m.inbox ≡ []
    → m.is_working ≡ true
    → (n : Monitor) × (run ws m ≡ ok n)
      × Between n
      × (n.is_working ≡ true)
      × (n.outbox ≡ m.outbox)
      × (n.screen ≡ m.screen ++ complaints (waits m between) ws)
unfolding run complaints waits
orphan_never_ends [] m between gone empty working =
    (m, refl, between, working, refl, sym (append-nil m.screen))
orphan_never_ends (w ∷ ws) m (inl g) gone empty working =
    let k = record m {
      inbox = m.inbox ++ w.arriving;
      phase = waiting (gather w.files m.folders);
    } in
    let still_empty : k.inbox ≡ [] = rw (empty, gone.0.0) in
    let (n, e, b, working', sent, shown) =
      orphan_never_ends ws k (inr (_, refl)) gone.1 still_empty working in
    (n, rw (step-gathering w m g, ◌>>=◌) e, b, working', sent, shown)
orphan_never_ends (w ∷ ws) m (inr (t, h)) gone empty working =
    let (k, e, g, empty', working', sent, said) =
      step_orphaned t w m h (rw (empty, gone.0.0)) gone.0.1 working in
    let (n, e', b, working'', sent', shown) =
      orphan_never_ends ws k (inl g) gone.1 empty' working' in
    (
      n,
      rw (e, ◌>>=◌) e',
      b,
      working'',
      sent' ∙ sent,
      shown
          ∙ ap (λ (l : Bytes). l ++ complaints false ws) said
          ∙ append_assoc m.screen unknown (complaints false ws),
    )

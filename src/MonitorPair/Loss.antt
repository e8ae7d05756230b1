-- ===== src/MonitorPair/Loss.antt =====
-- Assignments/A1, both programs on a link that was down, when netMonitor reads late.
use dps912_unix.Base.{
  All, blocked, arith, string_eq, ◌∙◌, Bytes, List, [], codes, false, fault, ok, refl, ◌++◌, ◌>>=◌,
  ◌∷◌, ◌≡◌,
}
use dps912_unix.Messages.{filled, send_message}
use dps912_unix.Messages.Streams.{receive_message-send_message}
use dps912_unix.NetMonitor.Handshake.{receive-message}
use dps912_unix.IntfMonitor
use dps912_unix.NetMonitor
use dps912_unix.IntfMonitor.{
  read_stream, Stats, gather, gathering, interface_up, waiting, Monitor, World,
}
use dps912_unix.IntfMonitor.Protocol.{step-waiting}
use dps912_unix.IntfMonitor.Orphans.{step-gathering}
use dps912_unix.NetMonitor.{
  judge, note_ready, take_read, welcome, got, interrupted, relay, Net, Link, Read,
}
use dps912_unix.NetMonitor.Relay.{Fits}
use dps912_unix.MonitorPair.{stream}

-- A monitor that waits for a command which does not come stays as it is.
waits_on :
    (t : Stats) (w : World) (m : Monitor)
    → m.phase ≡ waiting t
    → m.inbox ≡ []
    → w.arriving ≡ []
    → w.peer_closed ≡ false
    → (n : Monitor) × (IntfMonitor.step w m ≡ ok n)
      × (n.phase ≡ waiting t)
      × (n.inbox ≡ [])
      × (n.outbox ≡ m.outbox)
unfolding read_stream
waits_on t w m phase empty none_yet there =
    let still : m.inbox ++ w.arriving ≡ [] = rw (empty, none_yet) refl in
    (
      record m { inbox = m.inbox ++ w.arriving },
      step-waiting t w m phase still ∙ rw there refl,
      phase,
      still,
      refl,
    )

-- Worlds in which the peer is there but sends nothing.
abbrev pub Silent : List World → Type 0
Silent = All λ w. (w.arriving ≡ []) × (w.peer_closed ≡ false)

waits_all :
    (t : Stats) (ws : List World) (m : Monitor)
    → m.phase ≡ waiting t
    → m.inbox ≡ []
    → Silent ws
    → (n : Monitor) × (IntfMonitor.run ws m ≡ ok n) × (n.phase ≡ waiting t) × (n.outbox ≡ m.outbox)
unfolding IntfMonitor.run
waits_all t [] m phase empty silent = (m, refl, phase, refl)
waits_all t (w ∷ ws) m phase empty silent =
    let (k, e, phase', empty', sent) = waits_on t w m phase empty silent.0.0 silent.0.1 in
    let (n, e', phase'', sent') = waits_all t ws k phase' empty' silent.1 in
    (n, rw (e, ◌>>=◌) e', phase'', sent' ∙ sent)

-- A read that takes more than a message returns the message.
take_first :
    (first more : Bytes) (n : Net)
    → Fits first
    → (n' : Net) × (take_read (got (send_message first ++ more)) n ≡ ok (first, n'))
unfolding take_read
take_first first more n fits =
    let stream = send_message first ++ more in
    (
      record n { buffer = filled stream n.buffer },
      rw (receive_message-send_message first more n.buffer fits.0 fits.1, ◌>>=◌) refl,
    )

-- The server's side: a new connection whose second read takes two messages.
welcome_both :
    (more : Bytes) (l : Link) (net : Net)
    → l.reads
      ≡ got (send_message (codes "Ready")) ∷ got (send_message (codes "Monitoring") ++ more) ∷ []
    → (net' : Net) × (welcome l net
        ≡ ok (record l { reads = []; sent = l.sent ++ codes "Monitor" ∷ [] }, net'))
unfolding welcome
welcome_both more l net reads =
    let second = got (send_message (codes "Monitoring") ++ more) in
    let (n1, e, w) = receive-message (codes "Ready") (second ∷ []) l net (omega arith) reads in
    let m = note_ready (codes "Ready") n1 in
    let asked = NetMonitor.send (codes "Monitor") (record l { reads = second ∷ [] }) in
    let (n2, e') = take_first (codes "Monitoring") more m (omega arith) in
    (
      n2,
      rw (e, ◌>>=◌)
          (unfold NetMonitor.receive NetMonitor.receive_from NetMonitor.send judge string_eq in
            rw (e', ◌>>=◌) refl),
    )

-- A server whose one read takes "Monitoring" and "Link down" together never learns that the link is
-- down, and then both sides wait: the server blocks in its command loop, with only "Monitor" sent, and
-- the monitor, back at its files, waits through any number of steps for a command that does not come,
-- and sends nothing.
pub lost_report :
    (ws : List World) (w : World) (m : Monitor) (l : Link) (net : Net)
    → m.phase ≡ gathering
    → m.inbox ≡ []
    → w.arriving ≡ []
    → Silent ws
    → l.reads
      ≡ got (send_message (codes "Ready"))
        ∷ got (stream (codes "Monitoring" ∷ codes "Link down" ∷ []))
        ∷ []
    → (n : Monitor) × (l' : Link) × (net' : Net) × (welcome l net ≡ ok (l', net'))
      × (l'.sent ≡ l.sent ++ codes "Monitor" ∷ [])
      × (relay l'.reads l' net' ≡ fault blocked)
      × (IntfMonitor.run (w ∷ ws) m ≡ ok n)
      × (n.phase ≡ waiting (gather w.files m.folders))
      × (n.outbox ≡ m.outbox)
unfolding stream
lost_report ws w m l net phase empty none_yet silent reads =
    let (net', e) = welcome_both (send_message (codes "Link down") ++ []) l net reads in
    let k = record m {
      inbox = m.inbox ++ w.arriving;
      phase = waiting (gather w.files m.folders);
    } in
    let (n, e', phase', sent) =
      waits_all (gather w.files m.folders) ws k refl (rw (empty, none_yet) refl) silent in
    (
      n,
      record l { reads = []; sent = l.sent ++ codes "Monitor" ∷ [] },
      net',
      e,
      refl,
      unfold relay in refl,
      unfold IntfMonitor.run in rw (step-gathering w m phase, ◌>>=◌) e',
      phase',
      sent,
    )

-- ===== src/MonitorPair/Turn.antt =====
-- Assignments/A1, both programs on a link that was down, when netMonitor reads in time.
use dps912_unix.Base.{
  ap, append-nil, append_assoc, arith, map, string_eq, ◌∙◌, Bytes, List, Outcome, [], codes, false,
  fault, ltb_ℤ, ok, pos, refl, true, ◌++◌, ◌>>=◌, ◌∷◌, ◌≡◌,
}
use dps912_unix.Messages.{send_message}
use dps912_unix.IntfMonitor
use dps912_unix.NetMonitor
use dps912_unix.IntfMonitor.{
  read_stream, Stats, gather, gathering, interface_up, waiting, Monitor, World,
}
use dps912_unix.IntfMonitor.Protocol.{
  down_reports, next_phase, reply, text, set_link_up, step-command, stays_open,
}
use dps912_unix.IntfMonitor.Orphans.{step-gathering}
use dps912_unix.NetMonitor.{
  judge, note_ready, take_read, welcome, got, interrupted, relay, Net, Link, Read,
}
use dps912_unix.NetMonitor.Relay.{replies, relay_lem}
use dps912_unix.MonitorPair.{stream}

bind_later :
    (o : Outcome Monitor) (f g k : Monitor → Outcome Monitor)
    → ((n : Monitor) → f n ≡ (g n >>= k))
    → (o >>= f) ≡ ((o >>= g) >>= k)
bind_later (ok n) f g k h = h n
bind_later (fault e) f g k h = refl

pub run-append :
    (ws vs : List World) (m : Monitor)
    → IntfMonitor.run (ws ++ vs) m ≡ (IntfMonitor.run ws m >>= λ n. IntfMonitor.run vs n)
unfolding IntfMonitor.run
run-append [] vs m = refl
run-append (w ∷ ws) vs m =
    bind_later (IntfMonitor.step w m) (λ n. IntfMonitor.run (ws ++ vs) n)
      (λ n. IntfMonitor.run ws n) (λ n. IntfMonitor.run vs n) (run-append ws vs)

-- A monitor that is at its files, with nothing in its stream, and is then told to raise its link.
pub raised :
    (w v : World) (m : Monitor)
    → m.phase ≡ gathering
    → m.is_working ≡ true
    → m.fd_open ≡ true
    → m.inbox ≡ []
    → w.arriving ≡ []
    → v.arriving ≡ send_message (codes "Set Link Up")
    → ((folders : Bytes) → ltb_ℤ (interface_up v folders) (pos 0) ≡ false)
    → (n : Monitor) × (IntfMonitor.run (w ∷ v ∷ []) m ≡ ok n)
      × (n.outbox ≡ m.outbox ++ send_message (codes "Link Up"))
      × (n.phase ≡ gathering)
      × (n.inbox ≡ [])
      × (n.is_working ≡ true)
      × (n.fd_open ≡ true)
unfolding IntfMonitor.run
raised w v m phase working fd empty none_yet told granted =
    let k = record m {
      inbox = m.inbox ++ w.arriving;
      phase = waiting (gather w.files m.folders);
    } in
    let (n, e, sent, phase', empty', fd', working') =
      step-command set_link_up (gather w.files m.folders) v k refl working fd
        (unfold text in rw (empty, none_yet, told) refl) (λ e. granted m.folders) in
    (
      n,
      rw (step-gathering w m phase, ◌>>=◌) (rw (e, ◌>>=◌) refl),
      unfold reply in sent,
      unfold next_phase in phase',
      empty',
      unfold stays_open in working',
      unfold stays_open in fd',
    )

three : (s a b c : Bytes) → ((s ++ a) ++ b) ++ c ≡ s ++ (a ++ (b ++ (c ++ [])))
three s a b c = rw (append_assoc (s ++ a) b c, append_assoc s a (b ++ c), append-nil c) refl

-- One turn of a link that was down, seen from both sides, when the kernel grants the request. The
-- monitor, told to monitor, reports the link; told to set it up, it does so and says so, and is back at
-- its files with an empty stream; and netMonitor, which reads the two reports one by one before SIGINT,
-- sends exactly that command, and then the one to monitor again.
pub raise_link :
    (t : Stats) (w1 w2 w3 w4 : World) (m : Monitor) (rest : List Read) (l : Link) (net : Net)
    → m.phase ≡ waiting t
    → m.is_working ≡ true
    → m.fd_open ≡ true
    → m.inbox ≡ []
    → string_eq t.operstate (codes "down") ≡ true
    → w1.arriving ≡ send_message (codes "Monitor")
    → w2.arriving ≡ []
    → w3.arriving ≡ []
    → w4.arriving ≡ send_message (codes "Set Link Up")
    → ((folders : Bytes) → ltb_ℤ (interface_up w4 folders) (pos 0) ≡ false)
    → net.is_working ≡ true
    → (n : Monitor) × (n' : Net) × (IntfMonitor.run (w1 ∷ w2 ∷ w3 ∷ w4 ∷ []) m ≡ ok n)
      × (n.outbox
          ≡ m.outbox ++ stream (codes "Monitoring" ∷ codes "Link down" ∷ codes "Link Up" ∷ []))
      × (n.phase ≡ gathering)
      × (n.inbox ≡ [])
      × (relay
            (map (λ s. got (send_message s)) (codes "Link down" ∷ codes "Link Up" ∷ [])
              ++ interrupted ∷ rest)
            l
            net
          ≡ ok (
            record l { reads = rest; sent = l.sent ++ codes "Set Link Up" ∷ codes "Monitor" ∷ [] },
            n',
          ))
unfolding stream
raise_link t w1 w2 w3 w4 m rest l net phase working fd empty down told1 none2 none3 told4 granted
      serving =
    let (n, e, sent, phase', empty', working', fd') =
      down_reports t w1 w2 m phase working fd (rw (empty, told1) refl) down in
    let (k, e', sent', phase'', empty'', _, _) =
      raised w3 w4 n phase' working' fd' (empty' ∙ none2) none3 told4 granted in
    let (n', e'', stopped) =
      relay_lem (codes "Link down" ∷ codes "Link Up" ∷ []) rest l net (omega arith) serving in
    (
      k,
      n',
      run-append (w1 ∷ w2 ∷ []) (w3 ∷ w4 ∷ []) m ∙ rw (e, ◌>>=◌) e',
      sent'
          ∙ ap (λ s. s ++ send_message (codes "Link Up")) sent
          ∙ three m.outbox (send_message (codes "Monitoring")) (send_message (codes "Link down"))
              (send_message (codes "Link Up")),
      phase'',
      empty'',
      unfold replies NetMonitor.reply string_eq in e'',
    )

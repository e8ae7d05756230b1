-- ===== src/MonitorPair/Parting.antt =====
-- Assignments/A1, both programs when SIGINT comes while a monitor sets its link up.
use dps912_unix.Base.{
  append-nil, sym, All, Bytes, List, [], ap, append_assoc, arith, codes, decimal, false,
  if◌then◌else◌, ltb_ℤ, map, ok, pos, refl, string_eq, true, ◌++◌, ◌+◌, ◌>>=◌, ◌∙◌, ◌∷◌, ◌≡◌, ℕ,
}
use dps912_unix.IntfMonitor
use dps912_unix.NetMonitor
use dps912_unix.Messages.{send_message}
use dps912_unix.IntfMonitor.{Stats, done, Monitor, World, gathering, waiting, gather, interface_up}
use dps912_unix.IntfMonitor.Protocol.{
  next_phase, reply, stays_open, text, step-command, set_link_up, shut_down,
}
use dps912_unix.IntfMonitor.Orphans.{step-gathering}
use dps912_unix.NetMonitor.{
  dismiss, dismiss_all, got, interrupted, relay_last, serve, Net, Link, Read,
}
use dps912_unix.NetMonitor.Relay.{Fits, relay_lem, replies}
use dps912_unix.NetMonitor.Handshake.{accept_all_lem, joined, receive-message, fresh}
use dps912_unix.MonitorPair.{stream}

-- A pass of the shutdown loop whose next message is another one.
dismiss_other :
    (i : ℕ) (message : Bytes) (rest : List Read) (l : Link) (n : Net)
    → Fits message
    → string_eq message (codes "Done") ≡ false
    → l.reads ≡ got (send_message message) ∷ rest
    → (n' : Net) × (dismiss i l n
        ≡ ok (record l { reads = rest; sent = l.sent ++ codes "Shut Down" ∷ [] }, n'))
unfolding dismiss
dismiss_other i message rest l n fits other reads =
    let m =
      NetMonitor.print_line
        (codes "server: request client " ++ decimal (pos (i + 1)) ++ codes " to quit") n in
    let asked = NetMonitor.send (codes "Shut Down") l in
    let (n1, e, _) = receive-message message rest asked m fits (unfold NetMonitor.send in reads) in
    let l' = record asked { reads = rest } in
    (
      n1,
      rw (e, ◌>>=◌)
          (ap (λ b. ok ((if b then record l' { is_open = false } else l'), n1)) other
            ∙ unfold NetMonitor.send in refl),
    )

-- `main` with one monitor whose report is still to be read at SIGINT.
serve_other :
    (messages : List Bytes) (late : Bytes) (rest : List Read) (n : Net)
    → All Fits messages
    → Fits late
    → string_eq late (codes "Done") ≡ false
    → n.is_working ≡ true
    → (n' : Net) × (serve
          (fresh (
              map (λ m. got (send_message m)) messages
              ++ interrupted ∷ got (send_message late) ∷ rest)
            ∷ [])
          n
        ≡ ok (
          record {
            reads = rest;
            sent = (codes "Monitor" ∷ replies messages) ++ codes "Shut Down" ∷ [];
            is_open = true;
          }
              ∷ [],
          n',
        ))
unfolding serve joined relay_last dismiss_all
serve_other messages late rest n fits fits' other working =
    let waiting = NetMonitor.print_line (codes "Waiting for the client...") n in
    let after = got (send_message late) ∷ rest in
    let reads = map (λ m. got (send_message m)) messages ++ interrupted ∷ after in
    let (n1, e, w) = accept_all_lem (reads ∷ []) waiting in
    let (n2, e', w') =
      relay_lem messages after (joined reads) n1 fits
        (w ∙ unfold NetMonitor.print_line in working) in
    let l : Link = record {
      reads = after;
      sent = codes "Monitor" ∷ replies messages;
      is_open = true;
    } in
    let (n3, e'') = dismiss_other 0 late rest l n2 fits' other refl in
    (record n3 { socket_open = false }, rw (e, ◌>>=◌) (rw (e', ◌>>=◌) (rw (e'', ◌>>=◌) refl)))

-- The monitor sets its link up, and then hears that it is to quit.
quits :
    (t : Stats) (w1 w2 w3 : World) (m : Monitor)
    → m.phase ≡ waiting t
    → m.is_working ≡ true
    → m.fd_open ≡ true
    → m.inbox ≡ []
    → w1.arriving ≡ send_message (codes "Set Link Up")
    → w2.arriving ≡ []
    → w3.arriving ≡ send_message (codes "Shut Down")
    → ((folders : Bytes) → ltb_ℤ (interface_up w1 folders) (pos 0) ≡ false)
    → (n : Monitor) × (IntfMonitor.run (w1 ∷ w2 ∷ w3 ∷ []) m ≡ ok n)
      × (n.outbox ≡ m.outbox ++ stream (codes "Link Up" ∷ codes "Done" ∷ []))
      × (n.phase ≡ done)
unfolding IntfMonitor.run stream
quits t w1 w2 w3 m phase working fd empty told1 none2 told3 granted =
    let (k, e, sent, phase1, empty1, fd1, working1) =
      step-command set_link_up t w1 m phase working fd (unfold text in rw (empty, told1) refl)
        (λ e. granted m.folders) in
    let stats = gather w2.files k.folders in
    let k' = record k { inbox = k.inbox ++ w2.arriving; phase = IntfMonitor.waiting stats } in
    let (n, e', sent', phase', _, _, _) =
      step-command shut_down stats w3 k' refl (unfold stays_open in working1)
        (unfold stays_open in fd1) (unfold text in rw (empty1, none2, told3) refl) (λ e. cc) in
    (
      n,
      rw (e, ◌>>=◌)
          (rw (step-gathering w2 k (unfold next_phase in phase1), ◌>>=◌) (rw (e', ◌>>=◌) refl)),
      unfold reply in
          sent'
          ∙ ap (λ s. s ++ send_message (codes "Done")) sent
          ∙ append_assoc m.outbox (send_message (codes "Link Up")) (send_message (codes "Done"))
          ∙ ap (λ s. m.outbox ++ (send_message (codes "Link Up") ++ s))
              (sym (append-nil (send_message (codes "Done")))),
      unfold next_phase in phase',
    )

-- When SIGINT comes after netMonitor has told a monitor to set its link up, and before it has read "Link Up":
-- the monitor answers both commands, "Done" last, and ends; but netMonitor takes "Link Up" for the answer to
-- "Shut Down", leaves "Done" unread, and ends with the connection still open.
pub done_unread :
    (t : Stats) (w1 w2 w3 : World) (m : Monitor) (net : Net)
    → m.phase ≡ waiting t
    → m.is_working ≡ true
    → m.fd_open ≡ true
    → m.inbox ≡ []
    → w1.arriving ≡ send_message (codes "Set Link Up")
    → w2.arriving ≡ []
    → w3.arriving ≡ send_message (codes "Shut Down")
    → ((folders : Bytes) → ltb_ℤ (interface_up w1 folders) (pos 0) ≡ false)
    → net.is_working ≡ true
    → (n : Monitor) × (net' : Net) × (IntfMonitor.run (w1 ∷ w2 ∷ w3 ∷ []) m ≡ ok n)
      × (n.outbox ≡ m.outbox ++ stream (codes "Link Up" ∷ codes "Done" ∷ []))
      × (n.phase ≡ done)
      × (serve
            (fresh (
                got (send_message (codes "Link down"))
                ∷ interrupted
                ∷ got (send_message (codes "Link Up"))
                ∷ got (send_message (codes "Done"))
                ∷ [])
              ∷ [])
            net
          ≡ ok (
            record {
              reads = got (send_message (codes "Done")) ∷ [];
              sent = codes "Monitor" ∷ codes "Set Link Up" ∷ codes "Shut Down" ∷ [];
              is_open = true;
            }
                ∷ [],
            net',
          ))
done_unread t w1 w2 w3 m net phase working fd empty told1 none2 told3 granted serving =
    let (n, e, sent, phase') =
      quits t w1 w2 w3 m phase working fd empty told1 none2 told3 granted in
    let (net', e') =
      serve_other (codes "Link down" ∷ []) (codes "Link Up")
        (got (send_message (codes "Done")) ∷ []) net (omega arith, tt) (omega arith)
        (unfold string_eq in refl) serving in
    (n, net', e, sent, phase', unfold replies NetMonitor.reply string_eq in e')

-- ===== src/MonitorPair/Turns.antt =====
-- Assignments/A1, both programs on a link that goes down again and again.
use dps912_unix.Base.{
  All, append_assoc, arith, map, Bytes, List, [], ap, append-nil, codes, false, length, ltb_ℤ, ok,
  pos, refl, string_eq, suc, sym, true, zero, ◌++◌, ◌>>=◌, ◌∙◌, ◌∷◌, ◌≡◌, ℕ,
}
use dps912_unix.IntfMonitor
use dps912_unix.NetMonitor
use dps912_unix.Messages.{send_message}
use dps912_unix.IntfMonitor.{Monitor, World, gathering, waiting, gather, interface_up}
use dps912_unix.IntfMonitor.Display.{arrivals}
use dps912_unix.IntfMonitor.Protocol.{down_reports}
use dps912_unix.IntfMonitor.Orphans.{step-gathering}
use dps912_unix.NetMonitor.{Net, Link, Read}
use dps912_unix.NetMonitor.Relay.{Fits, relay_lem, replies}
use dps912_unix.MonitorPair.{stream}
use dps912_unix.MonitorPair.Turn.{raised, run-append}

-- What happens around the five steps of a turn: the monitor reads its files, is told to monitor, reports a
-- link that was down, reads its files again, and is told to set the link up, which the kernel grants.
pub record Turn : Type 0 where
  pub at_files : World
  pub told : World
  pub reporting : World
  pub again_at_files : World
  pub raising : World
  pub none_at_files : at_files.arriving ≡ []
  pub monitor : told.arriving ≡ send_message (codes "Monitor")
  pub none_reporting : reporting.arriving ≡ []
  pub none_again : again_at_files.arriving ≡ []
  pub set_link_up : raising.arriving ≡ send_message (codes "Set Link Up")
  pub down :
      (folders : Bytes) → string_eq (gather at_files.files folders).operstate (codes "down") ≡ true
  pub granted : (folders : Bytes) → ltb_ℤ (interface_up raising folders) (pos 0) ≡ false

unfoldable pub worlds : List Turn → List World
worlds [] = []
worlds (t ∷ ts) = t.at_files ∷ t.told ∷ t.reporting ∷ t.again_at_files ∷ t.raising ∷ worlds ts

-- What the monitor sends in so many turns, and what netMonitor sends to it.
unfoldable pub reports : ℕ → List Bytes
reports zero = []
reports (suc n) = codes "Monitoring" ∷ codes "Link down" ∷ codes "Link Up" ∷ reports n

unfoldable pub commands : ℕ → List Bytes
commands zero = []
commands (suc n) = codes "Set Link Up" ∷ codes "Monitor" ∷ commands n

-- A monitor that is at its files, with nothing in its stream.
pub record IsIdle (m : Monitor) : Type 0 where
  pub phase : m.phase ≡ gathering
  pub working : m.is_working ≡ true
  pub connected : m.fd_open ≡ true
  pub empty : m.inbox ≡ []

a_turn :
    (t : Turn) (m : Monitor)
    → IsIdle m
    → (n : Monitor) × (IntfMonitor.run (worlds (t ∷ [])) m ≡ ok n)
      × (n.outbox
          ≡ ((m.outbox ++ send_message (codes "Monitoring")) ++ send_message (codes "Link down"))
            ++ send_message (codes "Link Up"))
      × IsIdle n
unfolding worlds IntfMonitor.run
a_turn t m idle =
    let stats = gather t.at_files.files m.folders in
    let k = record m { inbox = m.inbox ++ t.at_files.arriving; phase = waiting stats } in
    let (n, e, sent, phase, empty, working, fd) =
      down_reports stats t.told t.reporting k refl idle.working idle.connected
        (rw (idle.empty, t.none_at_files, t.monitor) refl) (t.down m.folders) in
    let (n', e', sent', phase', empty', working', fd') =
      raised t.again_at_files t.raising n phase working fd (empty ∙ t.none_reporting) t.none_again
        t.set_link_up t.granted in
    (
      n',
      rw (step-gathering t.at_files m idle.phase, ◌>>=◌)
          (run-append (t.told ∷ t.reporting ∷ []) (t.again_at_files ∷ t.raising ∷ []) k
            ∙ rw (e, ◌>>=◌) e'),
      sent' ∙ ap (λ s. s ++ send_message (codes "Link Up")) sent,
      record { phase = phase'; working = working'; connected = fd'; empty = empty' },
    )

four : (s a b c d : Bytes) → (((s ++ a) ++ b) ++ c) ++ d ≡ s ++ (a ++ (b ++ (c ++ d)))
four s a b c d =
    append_assoc ((s ++ a) ++ b) c d
    ∙ append_assoc (s ++ a) b (c ++ d)
    ∙ append_assoc s a (b ++ (c ++ d))

all_turns :
    (ts : List Turn) (m : Monitor)
    → IsIdle m
    → (n : Monitor) × (IntfMonitor.run (worlds ts) m ≡ ok n)
      × (n.outbox ≡ m.outbox ++ stream (reports (length ts)))
      × IsIdle n
unfolding worlds IntfMonitor.run reports stream
all_turns [] m idle = (m, refl, sym (append-nil m.outbox), idle)
all_turns (t ∷ ts) m idle =
    let (k, e, sent, idle') = a_turn t m idle in
    let (n, e', sent', idle'') = all_turns ts k idle' in
    (
      n,
      run-append (worlds (t ∷ [])) (worlds ts) m ∙ rw (e, ◌>>=◌) e',
      sent'
          ∙ ap (λ s. s ++ stream (reports (length ts))) sent
          ∙ four m.outbox (send_message (codes "Monitoring")) (send_message (codes "Link down"))
              (send_message (codes "Link Up")) (stream (reports (length ts))),
      idle'',
    )

-- netMonitor's side.
unfoldable pub behind_first : ℕ → List Bytes
behind_first n = codes "Link down" ∷ codes "Link Up" ∷ reports n

replies-reports : (n : ℕ) → replies (reports n) ≡ commands n
unfolding replies reports commands NetMonitor.reply string_eq
replies-reports zero = refl
replies-reports (suc n) =
    ap (λ more. codes "Set Link Up" ∷ codes "Monitor" ∷ more) (replies-reports n)

reports-Fits : (n : ℕ) → All Fits (reports n)
unfolding reports
reports-Fits zero = tt
reports-Fits (suc n) = (omega arith, (omega arith, (omega arith, reports-Fits n)))

-- What netMonitor sends is what the monitor gets, and the command for the turn to come.
sent-arrivals :
    (ts : List Turn)
    → stream (codes "Monitor" ∷ commands (length ts))
      ≡ arrivals (worlds ts) ++ send_message (codes "Monitor")
unfolding stream commands arrivals worlds
sent-arrivals [] = append-nil (send_message (codes "Monitor"))
sent-arrivals (t ∷ ts) =
    let told = send_message (codes "Monitor") in
    let up = send_message (codes "Set Link Up") in
    let rest = arrivals (worlds ts) in
    ap (λ s. told ++ (up ++ s)) (sent-arrivals ts)
    ∙ ap (λ s. told ++ s) (sym (append_assoc up rest told))
    ∙ sym (append_assoc told (up ++ rest) told)
    ∙ rw (t.none_at_files, t.monitor, t.none_reporting, t.none_again, t.set_link_up) refl

-- However often the link is found down, when netMonitor reads the reports one by one: the monitor sends
-- "Monitoring", "Link down" and "Link Up" in each turn and is at its files again with an empty stream;
-- netMonitor, which has read the first "Monitoring" when it accepted the monitor, answers with "Set Link Up"
-- and "Monitor" in each turn, until SIGINT; and what it sends, with the "Monitor" of its accept loop, is byte
-- for byte what the monitor gets in these turns, and one "Monitor" more.
pub keep_raising :
    (t : Turn) (ts : List Turn) (m : Monitor) (rest : List Read) (l : Link) (net : Net)
    → IsIdle m
    → net.is_working ≡ true
    → (n : Monitor) × (n' : Net) × (IntfMonitor.run (worlds (t ∷ ts)) m ≡ ok n)
      × (n.outbox ≡ m.outbox ++ stream (codes "Monitoring" ∷ behind_first (length ts)))
      × IsIdle n
      × (NetMonitor.relay
            (map (λ s. NetMonitor.got (send_message s)) (behind_first (length ts))
              ++ NetMonitor.interrupted ∷ rest)
            l
            net
          ≡ ok (record l { reads = rest; sent = l.sent ++ commands (length (t ∷ ts)) }, n'))
      × (stream (codes "Monitor" ∷ commands (length (t ∷ ts)))
          ≡ arrivals (worlds (t ∷ ts)) ++ send_message (codes "Monitor"))
unfolding behind_first reports
keep_raising t ts m rest l net idle serving =
    let (n, e, sent, idle') = all_turns (t ∷ ts) m idle in
    let (n', e', _) =
      relay_lem (behind_first (length ts)) rest l net
        (omega arith, (omega arith, reports-Fits (length ts))) serving in
    let answers : replies (behind_first (length ts)) ≡ commands (length (t ∷ ts)) =
      unfold replies commands NetMonitor.reply string_eq in
      ap (λ more. codes "Set Link Up" ∷ codes "Monitor" ∷ more) (replies-reports (length ts)) in
    (
      n,
      n',
      e,
      sent,
      idle',
      e' ∙ ap (λ texts. ok (record l { reads = rest; sent = l.sent ++ texts }, n')) answers,
      sent-arrivals (t ∷ ts),
    )

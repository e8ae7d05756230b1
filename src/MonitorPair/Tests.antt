-- ===== src/MonitorPair/Tests.antt =====
-- Assignments/A1, both programs at concrete inputs: uses of the theorems.
use dps912_unix.Messages.{buf_len, send_message}
use dps912_unix.IntfMonitor
use dps912_unix.Base.{
  some, Bytes, List, [], blocked, codes, false, fault, map, none, ok, pos, refl, replicate,
  string_eq, true, ◌++◌, ◌∷◌, ◌≡◌,
}
use dps912_unix.IntfMonitor.{
  done, read_stat, remove_newlines, Stats, gather, gathering, interface_up, waiting, Monitor, World,
}
use dps912_unix.NetMonitor.{serve, got, interrupted, relay, welcome, Net, Link, Read}
use dps912_unix.MonitorPair.{stream}
use dps912_unix.MonitorPair.Turns.{Turn, worlds, behind_first, commands, IsIdle, keep_raising}
use dps912_unix.IntfMonitor.Display.{arrivals}
use dps912_unix.NetMonitor.Handshake.{fresh}
use dps912_unix.MonitorPair.Parting.{done_unread}
use dps912_unix.MonitorPair.Loss.{lost_report}

abbrev down_stats : Stats
down_stats = record {
  operstate = codes "down";
  carrier_up_count = codes "1";
  carrier_down_count = codes "2";
  rx_bytes = codes "0";
  rx_dropped = codes "0";
  rx_errors = codes "0";
  rx_packets = codes "0";
  tx_bytes = codes "0";
  tx_dropped = codes "0";
  tx_errors = codes "0";
  tx_packets = codes "0";
}

abbrev monitor_in : IntfMonitor.Phase → Monitor
monitor_in p = record {
  pid = pos 71;
  folders = codes "ens33";
  is_working = true;
  fd_open = true;
  inbox = [];
  outbox = [];
  buffer = replicate buf_len 0;
  phase = p;
  screen = [];
}

abbrev bringing : Bytes → World
bringing bytes = record {
  arriving = bytes;
  files = λ path. none;
  set_flags = λ r. pos 0;
  peer_closed = false;
}

abbrev net : Net
net = record { is_working = true; buffer = replicate buf_len 0; screen = []; socket_open = true }

abbrev link : List Read → Link
link reads = record { reads = reads; sent = []; is_open = true }

abbrev at_down : Bytes → World
at_down bytes = record (bringing bytes) { files = λ path. some (codes "down" ++ 10 ∷ []) }

abbrev turn : Turn
turn = record {
  at_files = at_down [];
  told = bringing (send_message (codes "Monitor"));
  reporting = bringing [];
  again_at_files = bringing [];
  raising = bringing (send_message (codes "Set Link Up"));
  none_at_files = refl;
  monitor = refl;
  none_reporting = refl;
  none_again = refl;
  set_link_up = refl;
  down = λ folders. unfold gather read_stat remove_newlines string_eq in refl;
  granted = λ folders. unfold interface_up in refl;
}

keep_raising_example :
    (n : Monitor) × (n' : Net) × (IntfMonitor.run (worlds (turn ∷ turn ∷ [])) (monitor_in gathering)
      ≡ ok n)
    × (n.outbox ≡ stream (codes "Monitoring" ∷ behind_first 1))
    × IsIdle n
    × (relay (map (λ s. got (send_message s)) (behind_first 1) ++ interrupted ∷ []) (link []) net
        ≡ ok (record (link []) { reads = []; sent = commands 2 }, n'))
    × (stream (codes "Monitor" ∷ commands 2)
        ≡ arrivals (worlds (turn ∷ turn ∷ [])) ++ send_message (codes "Monitor"))
keep_raising_example =
    keep_raising turn (turn ∷ []) (monitor_in gathering) [] (link []) net
      (record { phase = refl; working = refl; connected = refl; empty = refl }) refl

late : Link
late = link (
    got (send_message (codes "Ready"))
    ∷ got (stream (codes "Monitoring" ∷ codes "Link down" ∷ []))
    ∷ [])

lost_report_example :
    (n : Monitor) × (l' : Link) × (net' : Net) × (welcome late net ≡ ok (l', net'))
    × (l'.sent ≡ late.sent ++ codes "Monitor" ∷ [])
    × (relay l'.reads l' net' ≡ fault blocked)
    × (IntfMonitor.run (bringing [] ∷ bringing [] ∷ []) (monitor_in gathering) ≡ ok n)
    × (n.phase ≡ waiting (gather (bringing []).files (codes "ens33")))
    × (n.outbox ≡ [])
unfolding late
lost_report_example =
    lost_report (bringing [] ∷ []) (bringing []) (monitor_in gathering) late net refl refl refl
      ((refl, refl), tt) refl

done_unread_example :
    (n : Monitor) × (net' : Net) × (IntfMonitor.run
        (bringing (send_message (codes "Set Link Up"))
          ∷ bringing []
          ∷ bringing (send_message (codes "Shut Down"))
          ∷ [])
        (monitor_in (waiting down_stats))
      ≡ ok n)
    × (n.outbox ≡ stream (codes "Link Up" ∷ codes "Done" ∷ []))
    × (n.phase ≡ done)
    × (serve
          (fresh (
              got (send_message (codes "Link down"))
              ∷ interrupted
              ∷ got (send_message (codes "Link Up"))
              ∷ got (send_message (codes "Done"))
              ∷ [])
            ∷ [])
          net
        ≡ ok (
          record {
            reads = got (send_message (codes "Done")) ∷ [];
            sent = codes "Monitor" ∷ codes "Set Link Up" ∷ codes "Shut Down" ∷ [];
            is_open = true;
          }
              ∷ [],
          net',
        ))
unfolding interface_up
done_unread_example =
    done_unread down_stats (bringing (send_message (codes "Set Link Up"))) (bringing [])
      (bringing (send_message (codes "Shut Down"))) (monitor_in (waiting down_stats)) net refl refl
      refl refl refl refl refl (λ folders. refl) refl

-- ===== src/IntfMonitor/Tests.antt =====
-- Assignments/A1/intfMonitor.cpp at concrete inputs: uses of the theorems.
use dps912_unix.Base.{
  Bytes, [], arith, codes, false, inl, negsuc, none, ok, pos, refl, replicate, string_eq, true,
  ◌++◌, ◌∷◌, ◌≡◌,
}
use dps912_unix.Messages.{send_message, buf_len}
use dps912_unix.IntfMonitor.{
  Phase, Stats, World, display_lines, displaying, gather, gathering, interface_up, run, stats_path,
  step, waiting, Monitor,
}
use dps912_unix.IntfMonitor.Protocol.{
  next_phase, reply, set_link_up, stays_open, step-command, text,
}
use dps912_unix.IntfMonitor.Display.{arrivals, display_never_ends, times, block}
use dps912_unix.IntfMonitor
use dps912_unix.IntfMonitor.Orphans.{orphan_never_ends, Between, unknown}
use dps912_unix.IntfMonitor.Statistics.{files_of, gather-files_of, table}

abbrev stats : Bytes → Stats
stats state = record {
  operstate = state;
  carrier_up_count = codes "2";
  carrier_down_count = codes "3";
  rx_bytes = codes "1500";
  rx_dropped = codes "0";
  rx_errors = codes "0";
  rx_packets = codes "10";
  tx_bytes = codes "900";
  tx_dropped = codes "1";
  tx_errors = codes "0";
  tx_packets = codes "8";
}

abbrev monitor_in : Phase → Monitor
monitor_in p = record {
  pid = pos 71;
  folders = codes "ens33";
  is_working = true;
  fd_open = true;
  inbox = [];
  outbox = [];
  buffer = replicate buf_len 0;
  phase = p;
  screen = [];
}

abbrev bringing : Bytes → World
bringing bytes = record {
  arriving = bytes;
  files = λ path. none;
  set_flags = λ r. pos 0;
  peer_closed = false;
}

abbrev gone : World
gone = record { arriving = []; files = λ path. none; set_flags = λ r. negsuc 0; peer_closed = true }

display_never_ends_example :
    run
      (bringing (send_message (codes "Shut Down")) ∷ gone ∷ [])
      (monitor_in (displaying (stats (codes "up"))))
    ≡ ok (record (monitor_in (displaying (stats (codes "up")))) {
      inbox = [] ++ arrivals (bringing (send_message (codes "Shut Down")) ∷ gone ∷ []);
      screen = [] ++ times 2 (block (display_lines (codes "ens33") (stats (codes "up"))));
    })
unfolding string_eq
display_never_ends_example =
    display_never_ends (stats (codes "up"))
      (bringing (send_message (codes "Shut Down")) ∷ gone ∷ [])
      (monitor_in (displaying (stats (codes "up")))) refl refl

step-command_example :
    (n : Monitor) × (step
        (bringing (send_message (text set_link_up)))
        (monitor_in (waiting (stats (codes "down"))))
      ≡ ok n)
    × (n.outbox ≡ [] ++ send_message (reply set_link_up))
    × (n.phase ≡ next_phase set_link_up (stats (codes "down")))
    × (n.inbox ≡ [])
    × (n.fd_open ≡ stays_open set_link_up)
    × (n.is_working ≡ stays_open set_link_up)
step-command_example =
    step-command set_link_up (stats (codes "down")) (bringing (send_message (text set_link_up)))
      (monitor_in (waiting (stats (codes "down")))) refl refl refl refl
      (λ e. unfold interface_up in refl)

orphan_never_ends_example :
    (n : Monitor) × (run (gone ∷ gone ∷ gone ∷ []) (monitor_in gathering) ≡ ok n)
    × Between n
    × (n.is_working ≡ true)
    × (n.outbox ≡ [])
    × (n.screen ≡ (monitor_in gathering).screen ++ unknown)
unfolding IntfMonitor.Orphans.complaints IntfMonitor.Orphans.waits
orphan_never_ends_example =
    orphan_never_ends (gone ∷ gone ∷ gone ∷ []) (monitor_in gathering) (inl refl)
      ((refl, refl), ((refl, refl), ((refl, refl), tt))) refl refl

gather-files_of_example :
    gather
      (files_of (stats_path ++ b'/' ∷ codes "ens33") (table (stats (codes "up"))))
      (codes "ens33")
    ≡ stats (codes "up")
gather-files_of_example = gather-files_of (stats (codes "up")) (codes "ens33") (record {
  clean_operstate = omega arith;
  clean_carrier_up = omega arith;
  clean_carrier_down = omega arith;
  clean_rx_bytes = omega arith;
  clean_rx_dropped = omega arith;
  clean_rx_errors = omega arith;
  clean_rx_packets = omega arith;
  clean_tx_bytes = omega arith;
  clean_tx_dropped = omega arith;
  clean_tx_errors = omega arith;
  clean_tx_packets = omega arith;
})

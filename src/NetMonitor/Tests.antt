-- ===== src/NetMonitor/Tests.antt =====
-- Assignments/A1/netMonitor.cpp at concrete inputs: uses of the theorems.
use dps912_unix.Base.{
  if◌then◌else◌, ℕ, ◌==◌, pos, some, All, Bytes, List, [], arith, codes, false, map, ok, refl,
  replicate, true, ◌++◌, ◌∷◌, ◌≡◌,
}
use dps912_unix.Messages.{filled, send_message, buf_len}
use dps912_unix.NetMonitor
use dps912_unix.NetMonitor.Launch.{Setup}
use dps912_unix.NetMonitor.Launch.Roles.{main-Role, second_child, served}
use dps912_unix.NetMonitor.{print_line, Link, Read, got, interrupted, relay, serve, Net}
use dps912_unix.NetMonitor.Relay.{Fits, replies}
use dps912_unix.NetMonitor.Handshake.{fresh}
use dps912_unix.NetMonitor.ShutDown.{busy, finished, serve_lem, quiet}

abbrev net : Net
net = record { is_working = true; buffer = replicate buf_len 0; screen = []; socket_open = true }

abbrev link : List Read → Link
link reads = record { reads = reads; sent = []; is_open = true }

abbrev reports : List Bytes
reports = codes "Link down" ∷ codes "Monitoring" ∷ codes "Link Up" ∷ []

reports-Fits : All Fits reports
reports-Fits = omega arith

abbrev down : Bytes
down = send_message (codes "Link down")

abbrev stopped : Net
stopped = record net {
  is_working = false;
  buffer = filled [] net.buffer;
  screen = codes "SignalHandler(2): SIGINT" ++ 10 ∷ [];
}

serve_lem_example :
    (n' : Net) × (serve (map fresh (replicate 1 quiet ++ busy reports ∷ [])) net
      ≡ ok (replicate 1 (finished []) ++ finished (replies reports) ∷ [], n'))
    × (n'.socket_open ≡ false)
serve_lem_example = serve_lem 1 reports net reports-Fits refl

abbrev lost : Setup
lost = record {
  number = pos 2;
  words = codes "lo" ∷ codes "ens33" ∷ [];
  fork = λ i. pos 0;
  execlp = λ name. some (codes "No such file");
  socket = pos 3;
  bind = pos 0;
}

-- The second child's `execlp` fails; two monitors connect to it.
abbrev lost_child : Setup
lost_child = record lost { fork = λ i. if i == 0 then pos 500 else pos 0 }

abbrev accepted : ℕ → Link
accepted i = if i == 0 then fresh quiet else fresh (busy reports)

main-Role_example :
    NetMonitor.Launch.main lost_child accepted net
    ≡ served (fresh quiet ∷ fresh (busy reports) ∷ []) (print_line (codes "No such file") net)
unfolding NetMonitor.Launch.Roles.fate NetMonitor.Launch.Roles.child_fate
main-Role_example =
    main-Role {first = codes "lo"} {second = codes "ens33"} {os = lost_child}
      (second_child (some (codes "No such file")) refl refl refl) accepted net
      (record { two = refl; named = refl; fd = 3; opened = refl; bound = refl })

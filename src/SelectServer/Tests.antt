-- ===== src/SelectServer/Tests.antt =====
-- Labs/Lab 9/server.cpp at concrete inputs: uses of the theorems.
use dps912_unix.Base.{
  List, Option, [], arith, buffer_overflow, codes, false, fault, map, none, ok, refl, some, true,
  ◌++◌, ◌<◌, ◌∷◌, ◌≡◌, ◌⊎◌, ℕ,
}
use dps912_unix.SelectServer.{
  Event, Round, c_max, fd_isset, print_front, prints, receiver, receives, run, start, Hub,
}
use dps912_unix.SelectServer.Clients.{IsFresh, joined, receiver-Holds, Holds}
use dps912_unix.SelectServer.Queue.{map_outcome, receives_of, run-receives_of, shown}
use dps912_unix.SelectServer.Silence.{run-several, IsDistinct}
use dps912_unix.SelectServer.Reach.{Reached-Sound, printed, started, Sound}

-- A pass in which a client connects, one in which descriptor 4 brings a greeting, and others.
abbrev connects : ℕ → Round
connects fd = record { selected = some (3 ∷ []); accepted = some fd; received = λ c. none }

abbrev greets : Round
greets = record {
  selected = some (4 ∷ []);
  accepted = none;
  received = λ c. some (codes "hi" ++ 0 ∷ []);
}

abbrev closes : Round
closes = record { selected = some (4 ∷ []); accepted = none; received = λ c. some [] }

abbrev both : Round
both = record { selected = some (4 ∷ 5 ∷ []); accepted = none; received = λ c. some (codes "hi") }

abbrev hub : List ℕ → List (Option ℕ) → ℕ → ℕ → Hub
hub clients slots count max = record {
  is_working = true;
  fd_master = 3;
  fd_client = slots;
  c_cnt = count;
  fd_max = max;
  active_fds = 3 ∷ clients;
  mes_q = [];
  screen = [];
  sent = [];
}

abbrev two : Hub
two = hub (4 ∷ 5 ∷ []) (some 4 ∷ some 5 ∷ some 0 ∷ []) 2 5

two-Holds : Holds (4 ∷ 5 ∷ []) two
unfolding fd_isset
two-Holds = record {
  rest = some 0 ∷ [];
  table = refl;
  count = refl;
  size = refl;
  watched = refl;
  bound = omega arith;
  reached = refl;
}

two-IsDistinct : IsDistinct (4 ∷ 5 ∷ [])
unfolding IsDistinct fd_isset
two-IsDistinct = (refl, (refl, tt))

abbrev mixed : List Event
mixed = receives greets ∷ prints ∷ receives (connects 6) ∷ receives greets ∷ []

run-receives_of_example :
    map_outcome shown (run mixed two) ≡ map_outcome shown (run (receives_of mixed) two)
run-receives_of_example = run-receives_of mixed two

receiver-Holds_example :
    ((2 < c_max)
      × ((k : Hub) × (receiver (connects 6) two ≡ ok k)
          × Holds (joined (some 6) (4 ∷ 5 ∷ [])) k
          × (k.mes_q ≡ [])
          × (k.is_working ≡ true)))
    ⊎ ((2 ≡ c_max) × (receiver (connects 6) two ≡ fault buffer_overflow))
unfolding IsFresh fd_isset
receiver-Holds_example = receiver-Holds (4 ∷ 5 ∷ []) (connects 6) two two-Holds refl refl refl refl

run-several_example :
    run (map receives (both ∷ greets ∷ [])) two ≡ ok (record two { is_working = false })
unfolding fd_isset
run-several_example = run-several (4 ∷ 5 ∷ []) both (greets ∷ []) two refl refl refl (omega arith)

Reached-Sound_example : Sound (print_front (start 3))
Reached-Sound_example = Reached-Sound (printed (start 3) (started 3))

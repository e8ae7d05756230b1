-- ===== src/SelectServer/Quit.antt =====
-- Labs/Lab 9/server.cpp, the end of `main`.
use dps912_unix.Base.{List, [], codes, map, ok, refl, ◌++◌, ◌>>=◌, ◌∷◌, ◌≡◌, ℕ}
use dps912_unix.SelectServer.{quit_clients, shut_down, Hub}
use dps912_unix.SelectServer.Clients.{slots_of, take-slots, Holds}

quit_clients_lem :
    (clients : List ℕ)
    → quit_clients (slots_of clients) ≡ ok (map (λ fd. (fd, codes "Quit" ++ 0 ∷ [])) clients)
unfolding quit_clients
quit_clients_lem [] = refl
quit_clients_lem (fd ∷ clients) = rw (quit_clients_lem clients, ◌>>=◌) refl

-- When main ends it sends "Quit" once to each client that the hub holds, in the order in which they came.
pub shut_down_lem :
    (clients : List ℕ) (h : Hub)
    → Holds clients h
    → (k : Hub) × (shut_down h ≡ ok k)
      × (k.sent ≡ h.sent ++ map (λ fd. (fd, codes "Quit" ++ 0 ∷ [])) clients)
unfolding shut_down
shut_down_lem clients h c = (
  record h {
    sent = h.sent ++ map (λ fd. (fd, codes "Quit" ++ 0 ∷ [])) clients;
    screen = h.screen ++ codes "NOTICE: The system is shutting down." ∷ [];
  },
  rw (take-slots clients h c, quit_clients_lem clients, ◌>>=◌) refl,
  refl,
)

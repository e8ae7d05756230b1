-- ===== src/SelectServer/Silence.antt =====
-- Labs/Lab 9/server.cpp, which messages the receiver reads, and which it never reads.
use dps912_unix.Base.{
  ==-eq, ==-swap, All, append-nil, append_assoc, ==_of_ne, ==_refl, Bool-cases, Option, ap, inl,
  inr, length, map, some, sym, ◌++◌, ◌>>=◌, ◌∙◌, ◌≢◌, Bytes, List, [], c_string, false, ok, refl,
  replicate, true, ◌==◌, ◌||◌, ◌∷◌, ◌≡◌, ℕ,
}
use dps912_unix.SelectServer.{
  dispatch, push_all, receiver, receives, run, step, Round, buf_len, fd_isset, read_clients,
  recv_into, Hub,
}
use dps912_unix.SelectServer.Clients.{receiver-dispatch, take-slots, slots_of, Holds}

abbrev clear : Bytes
clear = replicate buf_len 0

-- No client twice.
unfoldable pub IsDistinct : List ℕ → Type 0
IsDistinct [] = Unit
IsDistinct (fd ∷ fds) = (fd_isset fd fds ≡ false) × IsDistinct fds

pub isset_skip : (a b : ℕ) (fds : List ℕ) → (a == b) ≡ false → fd_isset a (b ∷ fds) ≡ fd_isset a fds
unfolding fd_isset
isset_skip a b fds h = rw h refl

pub isset_head : (a b : ℕ) (fds : List ℕ) → fd_isset a (b ∷ fds) ≡ false → (a == b) ≡ false
unfolding fd_isset
isset_head a b fds h = elim (Bool-cases (a == b)) [
  | inl e ↦ absurd (let k : true ≡ false = sym (ap (λ x. x || fd_isset a fds) e) ∙ h in cc)
  | inr e ↦ e
]

-- A client that is not in the set is passed by.
pass_by :
    (fd c : ℕ) (slots : List (Option ℕ)) (r : Round) (buf : Bytes)
    → (c == fd) ≡ false
    → read_clients r (fd ∷ []) (some c ∷ slots) buf ≡ read_clients r (fd ∷ []) slots buf
unfolding read_clients fd_isset
pass_by fd c slots r buf h = rw h refl

read_others :
    (fd : ℕ) (clients : List ℕ) (r : Round) (buf : Bytes)
    → fd_isset fd clients ≡ false
    → read_clients r (fd ∷ []) (slots_of clients) buf ≡ ok []
read_others fd [] r buf h = unfold read_clients in refl
read_others fd (c ∷ cs) r buf h =
    let e = isset_head fd c cs h in
    pass_by fd c (slots_of cs) r buf (==-swap fd c e)
    ∙ read_others fd cs r buf (sym (isset_skip fd c cs e) ∙ h)

read_first :
    (fd : ℕ) (cs : List ℕ) (r : Round) (message : Bytes)
    → fd_isset fd cs ≡ false
    → c_string (recv_into (r.received fd) clear) ≡ ok message
    → read_clients r (fd ∷ []) (slots_of (fd ∷ cs)) clear ≡ ok (message ∷ [])
unfolding read_clients fd_isset
read_first fd cs r message d e =
    rw (==_refl fd, e, ◌>>=◌)
      (rw (read_others fd cs r (recv_into (r.received fd) clear) d, ◌>>=◌) refl)

read_one :
    (fd : ℕ) (clients : List ℕ) (r : Round) (message : Bytes)
    → IsDistinct clients
    → fd_isset fd clients ≡ true
    → c_string (recv_into (r.received fd) clear) ≡ ok message
    → read_clients r (fd ∷ []) (slots_of clients) clear ≡ ok (message ∷ [])
unfolding IsDistinct
read_one fd [] r message d h e = unfold fd_isset in cc
read_one fd (c ∷ cs) r message d h e = elim (Bool-cases (fd == c)) [
  | inl t ↦
      ap (λ x. read_clients r (fd ∷ []) (slots_of (x ∷ cs)) clear) (sym (==-eq fd c t))
      ∙ read_first fd cs r message (ap (λ x. fd_isset x cs) (==-eq fd c t) ∙ d.0) e
  | inr f ↦
      pass_by fd c (slots_of cs) r clear (==-swap fd c f)
      ∙ read_one fd cs r message d.1 (sym (isset_skip fd c cs f) ∙ h) e
]

-- When exactly one descriptor is ready, that of one of the clients, no two of which share one, the text
-- that its `recv` leaves in the buffer, if it ends there, is put at the end of the queue, and nothing
-- else changes.
pub receiver-one :
    (clients : List ℕ) (fd : ℕ) (r : Round) (h : Hub) (message : Bytes)
    → Holds clients h
    → IsDistinct clients
    → h.is_working ≡ true
    → r.selected ≡ some (fd ∷ [])
    → fd_isset h.fd_master (fd ∷ []) ≡ false
    → fd_isset fd clients ≡ true
    → c_string (recv_into (r.received fd) (replicate buf_len 0)) ≡ ok message
    → receiver r h ≡ ok (record h { mes_q = h.mes_q ++ message ∷ [] })
unfolding dispatch push_all
receiver-one clients fd r h message c d working selected other known text =
    receiver-dispatch r h working selected
    ∙ rw (other, take-slots clients h c, read_one fd clients r message d known text, ◌>>=◌) refl

-- A pass in which the only descriptor is that of a client that has closed its end.
unfoldable pub Closed : ℕ → Round → Type 0
Closed fd r = (r.selected ≡ some (fd ∷ [])) × (r.received fd ≡ some [])

queued :
    (clients : List ℕ) (h : Hub) (q : List Bytes)
    → Holds clients h
    → Holds clients (record h { mes_q = q })
queued clients h q c = record {
  rest = c.rest;
  table = c.table;
  count = c.count;
  size = c.size;
  watched = c.watched;
  bound = c.bound;
  reached = c.reached;
}

-- A client that closes its end is never taken out of the set: any number of passes in which its
-- descriptor is the only one that is ready put as many empty messages into the queue.
pub run-Closed :
    (clients : List ℕ) (fd : ℕ) (rs : List Round) (h : Hub)
    → Holds clients h
    → IsDistinct clients
    → h.is_working ≡ true
    → fd_isset h.fd_master (fd ∷ []) ≡ false
    → fd_isset fd clients ≡ true
    → All (Closed fd) rs
    → run (map receives rs) h ≡ ok (record h { mes_q = h.mes_q ++ replicate (length rs) [] })
unfolding run step Closed
run-Closed clients fd [] h c d working other known closed = rw (append-nil h.mes_q) refl
run-Closed clients fd (r ∷ rs) h c d working other known closed =
    let text : c_string (recv_into (r.received fd) (replicate buf_len 0)) ≡ ok [] =
      unfold recv_into c_string in rw closed.0.1 refl in
    rw (receiver-one clients fd r h [] c d working closed.0.0 other known text, ◌>>=◌)
      (run-Closed clients fd rs (record h { mes_q = h.mes_q ++ [] ∷ [] }) (queued clients h _ c) d
          working other known closed.1
        ∙ rw (append_assoc h.mes_q ([] ∷ []) (replicate (length rs) [])) refl)

pub run-stopped :
    (rs : List Round) (h : Hub) → h.is_working ≡ false → run (map receives rs) h ≡ ok h
unfolding run step receiver
run-stopped [] h e = refl
run-stopped (r ∷ rs) h e = rw (e, ◌>>=◌) (run-stopped rs (record h { is_working = false }) refl)

-- When `select` finds two or more clients with something to read and not the listening socket, or
-- nothing before its time is up, the receiver stops for good: it reads none of their messages, then or
-- later.
pub run-several :
    (fds : List ℕ) (r : Round) (rs : List Round) (h : Hub)
    → h.is_working ≡ true
    → r.selected ≡ some fds
    → fd_isset h.fd_master fds ≡ false
    → length fds ≢ 1
    → run (map receives (r ∷ rs)) h ≡ ok (record h { is_working = false })
unfolding run step dispatch
run-several fds r rs h working selected other several =
    rw (receiver-dispatch r h working selected, other, ==_of_ne (length fds) 1 several, ◌>>=◌)
      (run-stopped rs (record h { is_working = false }) refl)

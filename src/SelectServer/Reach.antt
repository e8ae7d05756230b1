-- ===== src/SelectServer/Reach.antt =====
-- Labs/Lab 9/server.cpp, the states that the server comes to.
use mathlib.Core.Path.{subst}
use dps912_unix.Base.{
  ==-swap, Bool-cases, arith, buffer_overflow, dec_lt, if◌then◌else◌, inl, inr, length, ltb_of_le,
  ltb_of_lt, replicate, take, ◌<◌, Bool, Bytes, List, Option, Outcome, [], false, fault, none, ok,
  refl, some, sym, true, ◌++◌, ◌==◌, ◌∙◌, ◌∷◌, ◌≡◌, ℕ,
}
use dps912_unix.SelectServer.{
  buf_len, line, print_next, read_clients, store_client, take_selected, Round, accept_client,
  dispatch, fd_isset, print_front, push_all, receiver, start, Hub,
}
use dps912_unix.SelectServer.Clients.{
  start-Holds, store_client_lem, table_size, IsFresh, fd_isset-append, joined, Holds,
}
use dps912_unix.SelectServer.Silence.{isset_head, isset_skip, IsDistinct}

-- The hubs that passes of the two threads lead to, if the kernel hands out descriptors that are free.
pub data Reached : Hub → Type 0 where
  started : (fd : ℕ) → Reached (start fd)
  received :
      (r : Round) (h k : Hub)
      → Reached h
      → IsFresh r.accepted h.active_fds
      → receiver r h ≡ ok k
      → Reached k
  printed : (h : Hub) → Reached h → Reached (print_front h)

-- What is true of them: the clients are held, and no descriptor stands for two.
pub Sound : Hub → Type 0
Sound h = (clients : List ℕ) × Holds clients h × IsDistinct (h.fd_master ∷ clients)

isset_last :
    (x fd : ℕ) (fds : List ℕ)
    → fd_isset x fds ≡ false
    → (x == fd) ≡ false
    → fd_isset x (fds ++ fd ∷ []) ≡ false
isset_last x fd fds h e = fd_isset-append x fd fds ∙ rw (h, e) refl

IsDistinct-append :
    (fds : List ℕ) (fd : ℕ) → IsDistinct fds → fd_isset fd fds ≡ false → IsDistinct (fds ++ fd ∷ [])
unfolding IsDistinct
IsDistinct-append [] fd d h = (unfold fd_isset in refl, tt)
IsDistinct-append (x ∷ xs) fd d h =
    let e = isset_head fd x xs h in
    (
      isset_last x fd xs d.0 (==-swap fd x e),
      IsDistinct-append xs fd d.1 (sym (isset_skip fd x xs e) ∙ h),
    )

Sound-joined :
    (master : ℕ) (clients : List ℕ) (o : Option ℕ)
    → IsFresh o (master ∷ clients)
    → IsDistinct (master ∷ clients)
    → IsDistinct (master ∷ joined o clients)
unfolding IsFresh joined
Sound-joined master clients none f d = d
Sound-joined master clients (some fd) f d = IsDistinct-append (master ∷ clients) fd d f

-- A hub that differs in its messages and its flag only.
moved :
    (h : Hub) (b : Bool) (q s : List Bytes)
    → Sound h
    → Sound (record h { is_working = b; mes_q = q; screen = s })
unfolding Sound
moved h b q s (clients, c, d) = (
  clients,
  record {
    rest = c.rest;
    table = c.table;
    count = c.count;
    size = c.size;
    watched = c.watched;
    bound = c.bound;
    reached = c.reached;
  },
  d,
)

Sound-push_all : (o : Outcome (List Bytes)) (h k : Hub) → Sound h → push_all o h ≡ ok k → Sound k
unfolding push_all
Sound-push_all (ok more) h k s e =
    let n = record h { mes_q = h.mes_q ++ more } in
    let same : n ≡ k = cc in subst Sound same (moved h h.is_working (h.mes_q ++ more) h.screen s)
Sound-push_all (fault x) h k s e = cc

Sound-store_client :
    (o : Option ℕ) (h : Hub)
    → Sound h
    → h.c_cnt < length h.fd_client
    → IsFresh o h.active_fds
    → Sound (store_client o h)
unfolding Sound
Sound-store_client o h (clients, c, d) room fresh =
    let free = rw c.watched at fresh in
    (
      joined o clients,
      store_client_lem clients o h c (omega (arith, table_size clients h c, c.count)) free,
      rw (master o) (Sound-joined h.fd_master clients o free d),
    )
  where
    master : (o : Option ℕ) → (store_client o h).fd_master ≡ h.fd_master
    master none = unfold store_client in refl
    master (some fd) = unfold store_client in refl

Sound-accept_client :
    (r : Round) (h k : Hub)
    → Sound h
    → IsFresh r.accepted h.active_fds
    → accept_client r h ≡ ok k
    → Sound k
unfolding accept_client
Sound-accept_client r h k s fresh e = elim (dec_lt h.c_cnt (length h.fd_client)) [
  | yes room ↦
      let n = store_client r.accepted h in
      let e' : ok n ≡ ok k = rw (ltb_of_lt h.c_cnt (length h.fd_client) room) at e in
      let same : n ≡ k = cc in subst Sound same (Sound-store_client r.accepted h s room fresh)
  | no full ↦
      let e' : fault buffer_overflow ≡ ok k =
        rw (ltb_of_le h.c_cnt (length h.fd_client) (omega arith)) at e in
      cc
]

Sound-dispatch :
    (fds : List ℕ) (r : Round) (h k : Hub)
    → Sound h
    → IsFresh r.accepted h.active_fds
    → dispatch fds r h ≡ ok k
    → Sound k
unfolding dispatch push_all
Sound-dispatch fds r h k s fresh e = elim (Bool-cases (fd_isset h.fd_master fds)) [
  | inl asks ↦ Sound-accept_client r h k s fresh (rw asks at e)
  | inr quiet ↦ elim (Bool-cases (length fds == 1)) [
    | inl one ↦
        Sound-push_all (read_clients r fds (take h.c_cnt h.fd_client) (replicate buf_len 0)) h k s
          (rw (quiet, one) at e)
    | inr several ↦
        let n = record h { is_working = false } in
        let e' : ok n ≡ ok k = rw (quiet, several) at e in
        let same : n ≡ k = cc in subst Sound same (moved h false h.mes_q h.screen s)
  ]
]

Sound-take_selected :
    (o : Option (List ℕ)) (r : Round) (h k : Hub)
    → Sound h
    → IsFresh r.accepted h.active_fds
    → take_selected o r h ≡ ok k
    → Sound k
unfolding take_selected
Sound-take_selected none r h k s fresh e = let same : h ≡ k = cc in subst Sound same s
Sound-take_selected (some fds) r h k s fresh e = Sound-dispatch fds r h k s fresh e

Sound-guard :
    (b : Bool) (r : Round) (h k : Hub)
    → Sound h
    → IsFresh r.accepted h.active_fds
    → (if b then take_selected r.selected r h else ok h) ≡ ok k
    → Sound k
Sound-guard true r h k s fresh e = Sound-take_selected r.selected r h k s fresh e
Sound-guard false r h k s fresh e = let same : h ≡ k = cc in subst Sound same s

Sound-print_next : (q : List Bytes) (h : Hub) → Sound h → Sound (print_next q h)
unfolding print_next
Sound-print_next [] h s = s
Sound-print_next (m ∷ q) h s = moved h h.is_working q (h.screen ++ line m ∷ []) s

Sound-receiver :
    (r : Round) (h k : Hub)
    → Sound h
    → IsFresh r.accepted h.active_fds
    → receiver r h ≡ ok k
    → Sound k
unfolding receiver
Sound-receiver r h k s fresh e = Sound-guard h.is_working r h k s fresh e

Sound-print_front : (h : Hub) → Sound h → Sound (print_front h)
unfolding print_front
Sound-print_front h s = Sound-print_next h.mes_q h s

-- In every state that the server comes to, if `accept` gives descriptors that are not in use, the table
-- holds its clients in their order and no more than three, the set that `select` gets is the listening
-- socket and these clients, no descriptor stands for two of them, and `fd_max` is the largest.
pub Reached-Sound : {h : Hub} → Reached h → Sound h
unfolding Sound
Reached-Sound (started fd) = ([], start-Holds fd, unfold IsDistinct fd_isset in (refl, tt))
Reached-Sound (received r h k reached fresh e) =
    Sound-receiver r h k (Reached-Sound reached) fresh e
Reached-Sound (printed h reached) = Sound-print_front h (Reached-Sound reached)

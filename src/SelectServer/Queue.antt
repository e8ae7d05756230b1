-- ===== src/SelectServer/Queue.antt =====
-- Labs/Lab 9/server.cpp, the queue between the two threads.
use mathlib.Core.List.{map-append}
use dps912_unix.Base.{
  Bool, false, if◌then◌else◌, true, Bool-cases, Bytes, Option, ap, append-nil, append_assoc, inl,
  inr, length, ltb, none, refl, replicate, some, sym, take, ◌==◌, ◌>>=◌, ◌∙◌, List, Outcome, [],
  fault, map, ok, ◌++◌, ◌∷◌, ◌≡◌, ℕ,
}
use dps912_unix.SelectServer.{
  Round, accept_client, buf_len, dispatch, fd_isset, print_next, push_all, read_clients, receiver,
  run, step, store_client, take_selected, Event, line, print_front, prints, receives, Hub,
}

-- What a hub has shown or will show, whichever part main has come to.
pub shown : Hub → Hub
shown h = record h { mes_q = []; screen = h.screen ++ map line h.mes_q }

pub map_outcome : (Hub → Hub) → Outcome Hub → Outcome Hub
map_outcome f (ok h) = ok (f h)
map_outcome f (fault e) = fault e

-- A run in which main prints nothing.
pub receives_of : List Event → List Event
receives_of [] = []
receives_of (receives r ∷ es) = receives r ∷ receives_of es
receives_of (prints ∷ es) = receives_of es

shown-print_next : (q : List Bytes) (h : Hub) → h.mes_q ≡ q → shown (print_next q h) ≡ shown h
unfolding print_next shown
shown-print_next [] h e = refl
shown-print_next (m ∷ ms) h e = rw (e, append_assoc h.screen (line m ∷ []) (map line ms)) refl

-- A function whose results show the same whether the queue was printed before or not.
abbrev Late : (Hub → Outcome Hub) → Type 0
Late f = (h : Hub) → map_outcome shown (f h) ≡ map_outcome shown (f (shown h))

Late-store_client : (o : Option ℕ) → Late (λ h. ok (store_client o h))
unfolding store_client shown map_outcome
Late-store_client none h = rw (append-nil (h.screen ++ map line h.mes_q)) refl
Late-store_client (some fd) h = rw (append-nil (h.screen ++ map line h.mes_q)) refl

Late-accept_client : (r : Round) → Late (accept_client r)
unfolding accept_client shown
Late-accept_client r h = elim (Bool-cases (ltb h.c_cnt (length h.fd_client))) [
  | inl e ↦ rw e (Late-store_client r.accepted h)
  | inr e ↦ rw e refl
]

Late-push_all : (o : Outcome (List Bytes)) → Late (push_all o)
unfolding push_all shown map_outcome
Late-push_all (ok ms) h =
    rw (map-append line h.mes_q ms, append_assoc h.screen (map line h.mes_q) (map line ms)) refl
Late-push_all (fault e) h = refl

Late-dispatch : (fds : List ℕ) (r : Round) → Late (dispatch fds r)
unfolding dispatch shown push_all map_outcome
Late-dispatch fds r h = elim (Bool-cases (fd_isset h.fd_master fds)) [
  | inl e ↦ rw e (Late-accept_client r h)
  | inr e ↦ elim (Bool-cases (length fds == 1)) [
    | inl e' ↦
        rw (e, e')
          (Late-push_all (read_clients r fds (take h.c_cnt h.fd_client) (replicate buf_len 0)) h)
    | inr e' ↦ rw (e, e') (rw (append-nil (h.screen ++ map line h.mes_q)) refl)
  ]
]

Late-take_selected : (o : Option (List ℕ)) (r : Round) → Late (take_selected o r)
unfolding take_selected shown map_outcome
Late-take_selected none r h = rw (append-nil (h.screen ++ map line h.mes_q)) refl
Late-take_selected (some fds) r h = Late-dispatch fds r h

Late-guard : (b : Bool) (r : Round) → Late λ h. if b then take_selected r.selected r h else ok h
unfolding shown map_outcome
Late-guard true r h = Late-take_selected r.selected r h
Late-guard false r h = rw (append-nil (h.screen ++ map line h.mes_q)) refl

Late-receiver : (r : Round) → Late (receiver r)
unfolding receiver shown map_outcome
Late-receiver r h = Late-guard h.is_working r h

same_step :
    (r : Round) (h k : Hub)
    → shown h ≡ shown k
    → map_outcome shown (receiver r h) ≡ map_outcome shown (receiver r k)
same_step r h k e =
    Late-receiver r h ∙ ap (λ x. map_outcome shown (receiver r x)) e ∙ sym (Late-receiver r k)

same_results :
    (f g : Hub → Outcome Hub) (a b : Outcome Hub)
    → ((h k : Hub) → shown h ≡ shown k → map_outcome shown (f h) ≡ map_outcome shown (g k))
    → map_outcome shown a ≡ map_outcome shown b
    → map_outcome shown (a >>= f) ≡ map_outcome shown (b >>= g)
unfolding map_outcome
same_results f g (ok h) (ok k) same e = same h k cc
same_results f g (ok h) (fault b) same e = cc
same_results f g (fault a) (ok k) same e = cc
same_results f g (fault a) (fault b) same e = cc

same_run :
    (es : List Event) (h k : Hub)
    → shown h ≡ shown k
    → map_outcome shown (run es h) ≡ map_outcome shown (run (receives_of es) k)
unfolding run step receives_of map_outcome
same_run [] h k e = ap (λ x. ok x) e
same_run (receives r ∷ es) h k e =
    same_results (run es) (run (receives_of es)) (receiver r h) (receiver r k) (same_run es)
      (same_step r h k e)
same_run (prints ∷ es) h k e =
    same_run es (print_front h) k (unfold print_front in shown-print_next h.mes_q h refl ∙ e)

-- However the passes of the two threads interleave, the messages that have been printed, followed by
-- those that wait in the queue, and all else that the program holds or ends with, are what they are when
-- main prints nothing: messages are printed in the order in which they were pushed, each once, and
-- the receiver does not depend on when main prints.
pub run-receives_of :
    (es : List Event) (h : Hub)
    → map_outcome shown (run es h) ≡ map_outcome shown (run (receives_of es) h)
run-receives_of es h = same_run es h h refl

-- ===== src/SelectServer/Clients.antt =====
-- Labs/Lab 9/server.cpp, the table of clients and the sets of descriptors.
use dps912_unix.Base.{
  ltb_of_le, take, take-append, append_assoc, buffer_overflow, dec_lt, fault, ltb_of_lt, ok, ◌⊎◌,
  Bool-cases, if◌then◌else◌, inl, inr, ltb, ==_refl, All, List, Option, [], ap, arith, false,
  length, length-append, map, none, refl, replicate, set, set-append, some, suc, sym, true, ◌++◌,
  ◌+◌, ◌<◌, ◌==◌, ◌||◌, ◌∙◌, ◌∷◌, ◌≡◌, ◌≤◌, ℕ,
}
use dps912_unix.SelectServer.{
  dispatch, receiver, take_selected, Round, accept_client, fd_set, c_max, fd_isset, start,
  store_client, Hub,
}

abbrev pub slots_of : List ℕ → List (Option ℕ)
slots_of = map some

-- The hub holds the clients, in the order in which they were accepted: they fill the first slots of the
-- table, the set holds them and the listening socket, and `fd_max` is the largest of it.
pub record Holds (clients : List ℕ) (h : Hub) : Type 0 where
  pub rest : List (Option ℕ)
  pub table : h.fd_client ≡ slots_of clients ++ rest
  pub count : h.c_cnt ≡ length clients
  pub size : length clients + length rest ≡ c_max
  pub watched : h.active_fds ≡ h.fd_master ∷ clients
  pub bound : All (λ fd. fd ≤ h.fd_max) (h.fd_master ∷ clients)
  pub reached : fd_isset h.fd_max (h.fd_master ∷ clients) ≡ true

-- The hub holds no clients at the start.
pub start-Holds : (fd : ℕ) → Holds [] (start fd)
unfolding start fd_isset
start-Holds fd = record {
  rest = replicate c_max (some 0);
  table = refl;
  count = refl;
  size = refl;
  watched = refl;
  bound = omega arith;
  reached = rw (==_refl fd) refl;
}

pub fd_isset-append :
    (x fd : ℕ) (xs : List ℕ) → fd_isset x (xs ++ fd ∷ []) ≡ (fd_isset x xs || x == fd)
unfolding fd_isset
fd_isset-append x fd [] = ground arith
fd_isset-append x fd (y ∷ ys) = rw (fd_isset-append x fd ys) (ground arith)

All-max : (m n : ℕ) (xs : List ℕ) → m ≤ n → All (λ fd. fd ≤ m) xs → All (λ fd. fd ≤ n) xs
All-max m n [] h a = tt
All-max m n (x ∷ xs) h a = (omega arith, All-max m n xs h a.1)

All-append_one :
    (n fd : ℕ) (xs : List ℕ) → All (λ x. x ≤ n) xs → fd ≤ n → All (λ x. x ≤ n) (xs ++ fd ∷ [])
All-append_one n fd [] a h = (h, tt)
All-append_one n fd (x ∷ xs) a h = (a.0, All-append_one n fd xs a.1 h)

-- The clients after `accept`.
unfoldable pub joined : Option ℕ → List ℕ → List ℕ
joined none clients = clients
joined (some fd) clients = clients ++ fd ∷ []

-- The kernel gives out descriptors that are not open.
unfoldable pub IsFresh : Option ℕ → List ℕ → Type 0
IsFresh none taken = Unit
IsFresh (some fd) taken = fd_isset fd taken ≡ false

larger : ℕ → ℕ → ℕ
larger m fd = if ltb m fd then fd else m

larger-left : (m fd : ℕ) → m ≤ larger m fd
unfolding larger
larger-left m fd = ground arith

larger-right : (m fd : ℕ) → fd ≤ larger m fd
unfolding larger
larger-right m fd = ground arith

larger_reached :
    (m fd : ℕ) (xs : List ℕ) → fd_isset m xs ≡ true → fd_isset (larger m fd) (xs ++ fd ∷ []) ≡ true
unfolding larger
larger_reached m fd xs h = elim (Bool-cases (ltb m fd)) [
  | inl e ↦ rw e (fd_isset-append fd fd xs ∙ rw (==_refl fd) (ground arith))
  | inr e ↦ rw e (fd_isset-append m fd xs ∙ rw h refl)
]

length-slots : (clients : List ℕ) → length (slots_of clients) ≡ length clients
length-slots [] = refl
length-slots (x ∷ xs) = ap suc (length-slots xs)

slots-append :
    (clients : List ℕ) (fd : ℕ) → slots_of (clients ++ fd ∷ []) ≡ slots_of clients ++ some fd ∷ []
slots-append [] fd = refl
slots-append (x ∷ xs) fd = ap (◌∷◌ (some x)) (slots-append xs fd)

written :
    (clients : List ℕ) (y : Option ℕ) (rest : List (Option ℕ)) (o : Option ℕ)
    (table : List (Option ℕ)) (n : ℕ)
    → table ≡ slots_of clients ++ y ∷ rest
    → n ≡ length clients
    → set table n o ≡ slots_of clients ++ o ∷ rest
written clients y rest o table n e c =
    rw (e, c, sym (length-slots clients)) (set-append (slots_of clients) rest y o)

pub store_client_lem :
    (clients : List ℕ) (o : Option ℕ) (h : Hub)
    → Holds clients h
    → length clients < c_max
    → IsFresh o (h.fd_master ∷ clients)
    → Holds (joined o clients) (store_client o h)
unfolding store_client joined IsFresh fd_set larger
store_client_lem clients o h c room fresh = go c.rest c.table c.size o fresh
  where
    go :
        (rest : List (Option ℕ))
        → h.fd_client ≡ slots_of clients ++ rest
        → length clients + length rest ≡ c_max
        → (o : Option ℕ) → IsFresh o (h.fd_master ∷ clients)
        → Holds (joined o clients) (store_client o h)
    go [] t s o f = absurd (omega arith)
    go (y ∷ rest) t s none f = record {
      rest = none ∷ rest;
      table = written clients y rest none h.fd_client h.c_cnt t c.count;
      count = c.count;
      size = s;
      watched = c.watched;
      bound = c.bound;
      reached = c.reached;
    }
    go (y ∷ rest) t s (some fd) f = record {
      rest = rest;
      table =
          written clients y rest (some fd) h.fd_client h.c_cnt t c.count
          ∙ rw (slots-append clients fd, append_assoc (slots_of clients) (some fd ∷ []) rest) refl;
      count = omega (arith, length-append clients (fd ∷ []), c.count);
      size = omega (arith, length-append clients (fd ∷ []));
      watched = rw (c.watched, f) refl;
      bound =
          All-append_one (larger h.fd_max fd) fd (h.fd_master ∷ clients)
            (All-max h.fd_max (larger h.fd_max fd) (h.fd_master ∷ clients) (larger-left h.fd_max fd)
              c.bound)
            (larger-right h.fd_max fd);
      reached = larger_reached h.fd_max fd (h.fd_master ∷ clients) c.reached;
    }

store_client_kept :
    (o : Option ℕ) (h : Hub)
    → ((store_client o h).mes_q ≡ h.mes_q) × ((store_client o h).is_working ≡ h.is_working)
unfolding store_client
store_client_kept none h = (refl, refl)
store_client_kept (some fd) h = (refl, refl)

-- A pass whose `select` let descriptors through.
pub receiver-dispatch :
    (r : Round) (h : Hub) {fds : List ℕ}
    → h.is_working ≡ true
    → r.selected ≡ some fds
    → receiver r h ≡ dispatch fds r h
unfolding receiver
receiver-dispatch r h working e =
    ap (λ b. if b then take_selected r.selected r h else ok h) working
    ∙ ap (λ s. take_selected s r h) e
    ∙ unfold take_selected in refl

pub table_size : (clients : List ℕ) (h : Hub) → Holds clients h → length h.fd_client ≡ c_max
table_size clients h c =
    rw c.table
      (omega (arith, length-append (slots_of clients) c.rest, length-slots clients, c.size))

-- A pass in which the listening socket is ready, and `accept` gives a free descriptor or fails, while
-- fewer than three clients are held: the new client is held behind the others, a failed `accept`
-- changes nothing of what the hub holds, and no message is touched. With three clients the pass writes
-- past the end of the table, even if `accept` fails.
pub receiver-Holds :
    (clients : List ℕ) (r : Round) (h : Hub) {fds : List ℕ}
    → Holds clients h
    → h.is_working ≡ true
    → r.selected ≡ some fds
    → fd_isset h.fd_master fds ≡ true
    → IsFresh r.accepted (h.fd_master ∷ clients)
    → ((length clients < c_max)
        × ((k : Hub) × (receiver r h ≡ ok k)
            × Holds (joined r.accepted clients) k
            × (k.mes_q ≡ h.mes_q)
            × (k.is_working ≡ true)))
      ⊎ ((length clients ≡ c_max) × (receiver r h ≡ fault buffer_overflow))
unfolding accept_client dispatch
receiver-Holds clients r h {fds} c working selected asks fresh =
    elim (dec_lt (length clients) c_max) [
      | yes room ↦ inl (
        room,
        (
          store_client r.accepted h,
          receiver-dispatch r h working selected
              ∙ rw (asks, ltb_of_lt h.c_cnt (length h.fd_client) (omega (arith, slots, c.count)))
                  refl,
          store_client_lem clients r.accepted h c room fresh,
          (store_client_kept r.accepted h).0,
          (store_client_kept r.accepted h).1 ∙ working,
        ),
      )
      | no full ↦ inr (
        omega (arith, c.size),
        receiver-dispatch r h working selected
            ∙ rw (asks, ltb_of_le h.c_cnt (length h.fd_client) (omega (arith, slots, c.count)))
                refl,
      )
    ]
  where
    slots : length h.fd_client ≡ c_max
    slots = table_size clients h c

pub take-slots :
    (clients : List ℕ) (h : Hub) → Holds clients h → take h.c_cnt h.fd_client ≡ slots_of clients
take-slots clients h c =
    rw (c.table, c.count, sym (length-slots clients)) (take-append (slots_of clients) c.rest)

-- ===== src/NetMonitor/Handshake.antt =====
-- Assignments/A1/netMonitor.cpp, the accept loop, and what the children are given.
use dps912_unix.Messages.{send_message}
use dps912_unix.Base.{
  blocked, fault, Bool-cases, append_assoc, arith, inl, inr, map, true, Bytes, List, [], ap, codes,
  if◌then◌else◌, ok, refl, string_eq, ◌++◌, ◌>>=◌, ◌∙◌, ◌∷◌, ◌≡◌,
}
use dps912_unix.NetMonitor.{
  accept_all, judge, note_ready, receive_from, Link, Read, got, print_line, receive, send, welcome,
  Net,
}
use dps912_unix.NetMonitor.Relay.{Fits, take_read-message}

-- What an interface monitor gets on its connection while it is accepted.
pub orders : Bytes → List Bytes
orders answer =
    codes "Monitor" ∷ (if string_eq answer (codes "Monitoring") then [] else codes "Shut Down" ∷ [])

pub receive-message :
    (message : Bytes) (rest : List Read) (l : Link) (n : Net)
    → Fits message
    → l.reads ≡ got (send_message message) ∷ rest
    → (n' : Net) × (receive l n ≡ ok (message, record l { reads = rest }, n'))
      × (n'.is_working ≡ n.is_working)
unfolding receive
receive-message message rest l n fits h =
    let (n', e, w) = take_read-message message n fits in
    (n', ap (λ r. receive_from r l n) h ∙ rw (e, ◌>>=◌) refl, w)

pub receive_none : (l : Link) (n : Net) → l.reads ≡ [] → receive l n ≡ fault blocked
unfolding receive
receive_none l n h = ap (λ r. receive_from r l n) h

note_ready-working : (message : Bytes) (n : Net) → (note_ready message n).is_working ≡ n.is_working
unfolding note_ready
note_ready-working message n = elim (Bool-cases (string_eq message (codes "Ready"))) [
  | inl e ↦ rw e refl
  | inr e ↦ rw e refl
]

judge_lem :
    (answer : Bytes) (l : Link) (n : Net)
    → (n' : Net) × (judge answer (send (codes "Monitor") l) n
        ≡ (record l { sent = l.sent ++ orders answer }, n'))
      × (n'.is_working ≡ n.is_working)
unfolding judge send orders
judge_lem answer l n = elim (Bool-cases (string_eq answer (codes "Monitoring"))) [
  | inl e ↦ (n, rw e refl, refl)
  | inr e ↦ (
    print_line (codes "Error: Monitoring failed") n,
    rw (e, append_assoc l.sent) refl,
    unfold print_line in refl,
  )
]

-- A new connection whose reads bring two messages, NUL-free and of fewer than 255 bytes, is sent
-- "Monitor" behind the first, whatever that one is, and "Shut Down" behind the second unless it is
-- "Monitoring". It is not closed, and what it brings later is left.
pub welcome_lem :
    (first answer : Bytes) (rest : List Read) (l : Link) (n : Net)
    → Fits first
    → Fits answer
    → l.reads ≡ got (send_message first) ∷ got (send_message answer) ∷ rest
    → (n' : Net) × (welcome l n
        ≡ ok (record l { reads = rest; sent = l.sent ++ orders answer }, n'))
      × (n'.is_working ≡ n.is_working)
unfolding welcome
welcome_lem first answer rest l n fits fits' h =
    let (n1, e, w) = receive-message first (got (send_message answer) ∷ rest) l n fits h in
    let m = note_ready first n1 in
    let asked = send (codes "Monitor") (record l { reads = got (send_message answer) ∷ rest }) in
    let (n2, e', w') = receive-message answer rest asked m fits' (unfold send in refl) in
    let (n3, e'', w'') = judge_lem answer (record l { reads = rest }) n2 in
    (
      n3,
      rw (e, ◌>>=◌) (rw (e', ◌>>=◌) (unfold send in ap ok e'')),
      w'' ∙ w' ∙ note_ready-working first n1 ∙ w,
    )

-- The connections of monitors that join as they should, and what they are afterwards.
unfoldable pub fresh : List Read → Link
fresh rest = record {
  reads = got (send_message (codes "Ready")) ∷ got (send_message (codes "Monitoring")) ∷ rest;
  sent = [];
  is_open = true;
}

unfoldable pub joined : List Read → Link
joined rest = record { reads = rest; sent = codes "Monitor" ∷ []; is_open = true }

-- All monitors that send "Ready" and "Monitoring" are accepted, each with one "Monitor", in their order.
pub accept_all_lem :
    (rests : List (List Read)) (n : Net)
    → (n' : Net) × (accept_all (map fresh rests) n ≡ ok (map joined rests, n'))
      × (n'.is_working ≡ n.is_working)
unfolding accept_all joined orders fresh string_eq
accept_all_lem [] n = (n, refl, refl)
accept_all_lem (rest ∷ rests) n =
    let (n1, e, w) =
      welcome_lem (codes "Ready") (codes "Monitoring") rest (fresh rest) n (omega arith)
        (omega arith) refl in
    let (n2, e', w') = accept_all_lem rests n1 in (n2, rw (e, ◌>>=◌) (rw (e', ◌>>=◌) refl), w' ∙ w)

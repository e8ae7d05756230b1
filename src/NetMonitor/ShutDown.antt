-- ===== src/NetMonitor/ShutDown.antt =====
-- Assignments/A1/netMonitor.cpp, the shutdown loop, and `main` from end to end.
use dps912_unix.Messages.{send_message}
use dps912_unix.Base.{
  map-replicate_last, ◌∙◌, All, Bytes, List, [], arith, blocked, codes, decimal, false, fault, map,
  ok, pos, refl, replicate, string_eq, true, ◌++◌, ◌+◌, ◌>>=◌, ◌∷◌, ◌≡◌, ℕ,
}
use dps912_unix.NetMonitor.{
  relay, relay_last, Link, Read, dismiss, dismiss_all, got, interrupted, print_line, send, serve,
  Net,
}
use dps912_unix.NetMonitor.Relay.{Fits, replies, relay_lem, relay_last-append}
use dps912_unix.NetMonitor.Handshake.{receive_none, receive-message, fresh, joined, accept_all_lem}

-- A connection whose next message is "Done", and what is left of it when that was read.
abbrev pub answers : Link → Link
answers l = record l { reads = got (send_message (codes "Done")) ∷ l.reads }

abbrev pub dismissed : Link → Link
dismissed l = record l { sent = l.sent ++ codes "Shut Down" ∷ []; is_open = false }

dismiss_lem :
    (i : ℕ) (l : Link) (n : Net) → (n' : Net) × (dismiss i (answers l) n ≡ ok (dismissed l, n'))
unfolding dismiss string_eq
dismiss_lem i l n =
    let m =
      print_line (codes "server: request client " ++ decimal (pos (i + 1)) ++ codes " to quit") n in
    let asked = send (codes "Shut Down") (answers l) in
    let (n1, e, w) = receive-message (codes "Done") l.reads asked m (omega arith) refl in
    (n1, rw (e, ◌>>=◌) refl)

-- Monitors that all answer "Done" are each told once to shut down, and their connections closed.
pub dismiss_all_lem :
    (i : ℕ) (ls : List Link) (n : Net)
    → (n' : Net) × (dismiss_all i (map answers ls) n ≡ ok (map dismissed ls, n'))
unfolding dismiss_all
dismiss_all_lem i [] n = (n, refl)
dismiss_all_lem i (l ∷ ls) n =
    let (n1, e) = dismiss_lem i l n in
    let (n2, e') = dismiss_all_lem (i + 1) ls n1 in (n2, rw (e, ◌>>=◌) (rw (e', ◌>>=◌) refl))

-- One monitor that brings no answer, behind others that answer "Done", blocks the shutdown loop,
-- whatever stands behind it.
pub dismiss_all_waits :
    (i : ℕ) (front : List Link) (l : Link) (back : List Link) (n : Net)
    → l.reads ≡ []
    → dismiss_all i (map answers front ++ l ∷ back) n ≡ fault blocked
unfolding dismiss_all
dismiss_all_waits i [] l back n h = rw (silent, ◌>>=◌) refl
  where
    silent : dismiss i l n ≡ fault blocked
    silent =
        unfold dismiss in
        rw
          (
            receive_none (send (codes "Shut Down") l)
                (print_line
                  (codes "server: request client " ++ decimal (pos (i + 1)) ++ codes " to quit") n)
                (unfold send in h),
            ◌>>=◌,
          )
          refl
dismiss_all_waits i (k ∷ front) l back n h =
    let (n1, e) = dismiss_lem i k n in
    rw (e, ◌>>=◌) (rw (dismiss_all_waits (i + 1) front l back n1 h, ◌>>=◌) refl)

-- What a monitor brings that is never reported down, and what the one brings that is served.
pub quiet : List Read
quiet = got (send_message (codes "Done")) ∷ []

pub busy : List Bytes → List Read
busy messages = map (λ m. got (send_message m)) messages ++ interrupted ∷ quiet

-- The end of a connection: all messages that were sent on it.
pub finished : List Bytes → Link
finished served = record {
  reads = [];
  sent = (codes "Monitor" ∷ served) ++ codes "Shut Down" ∷ [];
  is_open = false;
}

-- A joined connection whose messages were served, before its "Done".
unread : List Bytes → Link
unread sent_so_far = record { reads = []; sent = codes "Monitor" ∷ sent_so_far; is_open = true }

served_last :
    (others : ℕ) (messages : List Bytes) (n n' : Net)
    → relay (busy messages) (joined (busy messages)) n
      ≡ ok (answers (unread (replies messages)), n')
    → relay_last (map joined (replicate others quiet ++ busy messages ∷ [])) n
      ≡ ok (map answers (replicate others (unread []) ++ unread (replies messages) ∷ []), n')
unfolding joined unread quiet
served_last others messages n n' h =
    rw
      (
        map-replicate_last joined others quiet (busy messages),
        map-replicate_last answers others (unread []) (unread (replies messages)),
      )
      (relay_last-append (replicate others (joined quiet)) (joined (busy messages))
        (answers (unread (replies messages))) n n' h)

-- `main` with monitors that join and answer "Done", of which the last also brings messages, NUL-free
-- and of fewer than 255 bytes, before SIGINT: every monitor is sent "Monitor" first and "Shut Down"
-- last, only the last one is sent anything in between, namely the replies to its messages in order, and
-- all connections and the socket are closed.
pub serve_lem :
    (others : ℕ) (messages : List Bytes) (n : Net)
    → All Fits messages
    → n.is_working ≡ true
    → (n' : Net) × (serve (map fresh (replicate others quiet ++ busy messages ∷ [])) n
        ≡ ok (replicate others (finished []) ++ finished (replies messages) ∷ [], n'))
      × (n'.socket_open ≡ false)
unfolding serve joined unread quiet busy finished
serve_lem others messages n fits working =
    let waiting = print_line (codes "Waiting for the client...") n in
    let ends = replicate others (unread []) ++ unread (replies messages) ∷ [] in
    let (n1, e, w) = accept_all_lem (replicate others quiet ++ busy messages ∷ []) waiting in
    let (n2, e', w') =
      relay_lem messages quiet (joined (busy messages)) n1 fits
        (w ∙ unfold print_line in working) in
    let (n3, e'') = dismiss_all_lem 0 ends n2 in
    (
      record n3 { socket_open = false },
      rw (e, ◌>>=◌)
          (rw (served_last others messages n1 n2 e', ◌>>=◌)
            (rw (e'', ◌>>=◌)
              (rw (map-replicate_last dismissed others (unread []) (unread (replies messages)))
                refl))),
      refl,
    )

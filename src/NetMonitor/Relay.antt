-- ===== src/NetMonitor/Relay.antt =====
-- Assignments/A1/netMonitor.cpp, the command loop.
use dps912_unix.Messages.{filled, receive_message, send_message, read_len}
use dps912_unix.Messages.Streams.{receive_message-alone}
use dps912_unix.Base.{
  Option, append_assoc, blocked, fault, string_eq, append-nil, All, Bytes, List, NulFree, [], ap,
  c_string, false, length, map, none, ok, refl, some, true, ◌++◌, ◌<◌, ◌>>=◌, ◌∙◌, ◌∷◌, ◌≡◌,
}
use dps912_unix.NetMonitor.{
  relay_last, Link, Read, got, interrupted, relay, reply, send_reply, take_read, Net,
}

-- A message that `receiveMessage` returns whole when it comes alone.
abbrev pub Fits : Bytes → Type 0
Fits message = NulFree message × (length message < read_len)

-- The replies to a list of messages, in order.
unfoldable pub replies : List Bytes → List Bytes
replies [] = []
replies (message ∷ rest) = elim (reply message) [ none ↦ replies rest | some r ↦ r ∷ replies rest ]

pub take_read-message :
    (message : Bytes) (n : Net)
    → Fits message
    → (n' : Net) × (take_read (got (send_message message)) n ≡ ok (message, n'))
      × (n'.is_working ≡ n.is_working)
unfolding take_read
take_read-message message n fits =
    let (r, e, m) = receive_message-alone message n.buffer fits.0 fits.1 in
    (
      record n { buffer = r.buffer },
      rw (e, ◌>>=◌) (ap (λ (s : Bytes). ok (s, record n { buffer = r.buffer })) m),
      refl,
    )

take_read-interrupted :
    (n : Net) → (n' : Net) × (take_read interrupted n ≡ ok ([], n')) × (n'.is_working ≡ false)
unfolding take_read receive_message filled c_string
take_read-interrupted n = (_, refl, refl)

relay_stop :
    (rest : List Read) (l : Link) (n n' : Net)
    → take_read interrupted n ≡ ok ([], n')
    → n'.is_working ≡ false
    → relay (interrupted ∷ rest) l n ≡ ok (record l { reads = rest }, n')
unfolding relay reply string_eq
relay_stop rest l n n' e w = rw (e, ◌>>=◌) (rw w refl)

relay_message :
    (message : Bytes) (rest : List Read) (l : Link) (n : Net)
    → Fits message
    → n.is_working ≡ true
    → (n' : Net) × (relay (got (send_message message) ∷ rest) l n
        ≡ relay rest (send_reply (reply message) (record l { reads = rest })) n')
      × (n'.is_working ≡ true)
unfolding relay
relay_message message rest l n fits working =
    let (n', e, w) = take_read-message message n fits in
    (n', rw (e, ◌>>=◌) (rw (w ∙ working) refl), w ∙ working)

served :
    (o : Option Bytes) (l : Link) (rest : List Read) (more : List Bytes)
    → ◌≡◌ {A = Link}
        (record (send_reply o l) { reads = rest; sent = (send_reply o l).sent ++ more })
        (record l { reads = rest; sent = l.sent ++ elim o [ none ↦ more | some r ↦ r ∷ more ] })
unfolding send_reply
served none l rest more = refl
served (some r) l rest more = rw (append_assoc l.sent (r ∷ []) more) refl

-- Until SIGINT the loop reads the messages of its connection one by one, if each is NUL-free and of
-- fewer than 255 bytes, and sends the reply to each in their order: "Set Link Up" to "Link down",
-- "Monitor" to "Link Up", nothing to any other. SIGINT ends it; what the connection would still bring
-- is left unread.
pub relay_lem :
    (messages : List Bytes) (rest : List Read) (l : Link) (n : Net)
    → All Fits messages
    → n.is_working ≡ true
    → (n' : Net) × (relay (map (λ m. got (send_message m)) messages ++ interrupted ∷ rest) l n
        ≡ ok (record l { reads = rest; sent = l.sent ++ replies messages }, n'))
      × (n'.is_working ≡ false)
unfolding replies
relay_lem [] rest l n fits working =
    let (n', e, w) = take_read-interrupted n in
    (n', rw (append-nil l.sent) (relay_stop rest l n n' e w), w)
relay_lem (message ∷ messages) rest l n fits working =
    let more = map (λ m. got (send_message m)) messages ++ interrupted ∷ rest in
    let (n', e, w) = relay_message message more l n fits.0 working in
    let (n'', e', w') =
      relay_lem messages rest (send_reply (reply message) (record l { reads = more })) n' fits.1
        w in
    (
      n'',
      e
          ∙ e'
          ∙ ap (λ (k : Link). ok (k, n''))
              (served (reply message) (record l { reads = more }) rest (replies messages)),
      w',
    )

-- A command loop whose connection brings messages that are NUL-free and of fewer than 255 bytes, and no
-- SIGINT, blocks once they are read.
pub relay_waits :
    (messages : List Bytes) (l : Link) (n : Net)
    → All Fits messages
    → n.is_working ≡ true
    → relay (map (λ m. got (send_message m)) messages) l n ≡ fault blocked
relay_waits [] l n fits working = unfold relay in refl
relay_waits (message ∷ messages) l n fits working =
    let (n', e, w) =
      relay_message message (map (λ m. got (send_message m)) messages) l n fits.0 working in
    e
    ∙ relay_waits messages
        (send_reply (reply message) (record l { reads = map (λ m. got (send_message m)) messages }))
        n' fits.1 w

-- Of all connections the command loop serves the one that was accepted last: if the loop on it ends,
-- all others are left as they were, their messages unread, and nothing is sent to them.
pub relay_last-append :
    (front : List Link) (l l' : Link) (n n' : Net)
    → relay l.reads l n ≡ ok (l', n')
    → relay_last (front ++ l ∷ []) n ≡ ok (front ++ l' ∷ [], n')
unfolding relay_last
relay_last-append [] l l' n n' h = rw (h, ◌>>=◌) refl
relay_last-append (k ∷ []) l l' n n' h = rw (h, ◌>>=◌) refl
relay_last-append (k ∷ j ∷ front) l l' n n' h =
    rw (relay_last-append (j ∷ front) l l' n n' h, ◌>>=◌) refl

-- ===== src/MessageRelay/Formats.antt =====
-- Labs/Lab 8/server.cpp, what becomes of a text that `main` takes as the format of its `sprintf`.
use dps912_unix.Base.{
  fault, inl, inr, wild_pointer, ◌⊎◌, ==_of_ne, All, Bool, Bytes, NulFree, [], c_string,
  c_string-append, drop, length, length-store, ok, refl, store, store_text, true, ℤ, ◌++◌, ◌+◌, ◌<◌,
  ◌∷◌, ◌≡◌, ◌≢◌, ℕ,
}
use dps912_unix.MessageRelay.{msgsnd, Directive, Relay, forward, printf_text, Message}

-- No '%'.
abbrev pub Undirected : Bytes → Type 0
Undirected = All λ c. c ≢ b'%'

pub printf_plain :
    (other : Directive) (pid : ℤ) (left : Bool) (text : Bytes)
    → Undirected text
    → printf_text other pid left text ≡ ok text
unfolding printf_text
printf_plain other pid left [] h = refl
printf_plain other pid left (c ∷ []) h = rw (==_of_ne c b'%' h.0)
printf_plain other pid left (c ∷ d ∷ text) h =
    rw (==_of_ne c b'%' h.0, printf_plain other pid left (d ∷ text) h.1)

-- The two directives that read or write through an argument.
abbrev pub Pointer : ℕ → Type 0
Pointer d = (d ≡ b's') ⊎ (d ≡ b'n')

printf_wild :
    (other : Directive) (pid : ℤ) (left : Bool) (text : Bytes) (d : ℕ) (rest : Bytes)
    → Undirected text
    → Pointer d
    → printf_text other pid left (text ++ b'%' ∷ d ∷ rest) ≡ fault wild_pointer
unfolding printf_text
printf_wild other pid left [] d rest h (inl e) = rw e refl
printf_wild other pid left [] d rest h (inr e) = rw e refl
printf_wild other pid left (c ∷ []) d rest h p =
    rw (==_of_ne c b'%' h.0, printf_wild other pid left [] d rest tt p)
printf_wild other pid left (c ∷ d' ∷ text) d rest h p =
    rw (==_of_ne c b'%' h.0, printf_wild other pid left (d' ∷ text) d rest h.1 p)

-- A text that has room in the array goes through it.
pub forward_plain :
    (other : Directive) (pid : ℤ) (m : Message) (s : Relay) (text rest : Bytes)
    → m.buf ≡ text ++ 0 ∷ rest
    → NulFree text
    → Undirected text
    → length text < length s.message_send.buf
    → (buf : Bytes) × (length buf ≡ length s.message_send.buf)
      × (c_string buf ≡ ok text)
      × (forward other pid m s
          ≡ ok (record s {
            message_send = record { mtype = m.dest; source = m.source; dest = m.dest; buf = buf };
            sent =
                msgsnd
                  (record { mtype = m.dest; source = m.source; dest = m.dest; buf = buf })
                  s.sent;
          }))
unfolding forward
forward_plain other pid m s text rest shown free plain room =
    let buf = text ++ 0 ∷ drop (length text + 1) s.message_send.buf in
    let stored : store s.message_send.buf (text ++ 0 ∷ []) ≡ ok buf =
      store_text s.message_send.buf text room in
    (
      buf,
      length-store s.message_send.buf (text ++ 0 ∷ []) stored,
      c_string-append text _ free,
      rw (shown, c_string-append text rest free, printf_plain other pid true text plain, stored),
    )

-- A client's text with "%s" or "%n" behind plain text makes `main` use a pointer that nobody passed:
-- the message is not sent, whoever it is for and whatever is in the array.
pub forward_wild :
    (other : Directive) (pid : ℤ) (m : Message) (s : Relay) (text more rest : Bytes) (d : ℕ)
    → m.buf ≡ (text ++ b'%' ∷ d ∷ more) ++ 0 ∷ rest
    → NulFree (text ++ b'%' ∷ d ∷ more)
    → Undirected text
    → Pointer d
    → forward other pid m s ≡ fault wild_pointer
unfolding forward
forward_wild other pid m s text more rest d shown free plain p = rw (
  shown,
  c_string-append (text ++ b'%' ∷ d ∷ more) rest free,
  printf_wild other pid true text d more plain p,
)

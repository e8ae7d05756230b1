-- ===== src/MessageRelay/Forwarding.antt =====
-- Labs/Lab 8/server.cpp, a message on its way through the server, and what every step keeps.
use mathlib.Core.Path.{subst}
use dps912_unix.Base.{
  ltb_ℤ, pos, ap, append_assoc, arith, c_string-append, if◌then◌else◌, refl, sym, ◌-◌, ◌>>=◌, ◌∙◌,
  All, Bytes, List, NulFree, [], c_string, length, ok, true, ℤ, ◌++◌, ◌<◌, ◌∷◌, ◌≡◌, ℕ,
}
use dps912_unix.MessageRelay.{
  msgsnd, joining, main_step, send_quits, serve, Directive, Event, Relay, arrives, breaks, forward,
  mains, recv, serving, signals, Message,
}
use dps912_unix.MessageRelay.Formats.{forward_plain, Undirected}

-- A message to a type that `msgsnd` takes, whose text fits into `n` bytes with its NUL and has no '%'.
pub record IsPlain (n : ℕ) (m : Message) : Type 0 where
  pub text : Bytes
  pub rest : Bytes
  pub shown : m.buf ≡ text ++ 0 ∷ rest
  pub free : NulFree text
  pub undirected : Undirected text
  pub room : length text < n
  pub receiver : ltb_ℤ (pos 0) m.dest ≡ true

-- `out` is `m` on its way to its receiver.
pub record Forwards (out m : Message) : Type 0 where
  pub to : out.mtype ≡ m.dest
  pub source : out.source ≡ m.source
  pub dest : out.dest ≡ m.dest
  pub text : c_string out.buf ≡ c_string m.buf

-- Pairwise, in order.
pub data AllForwards : List Message → List Message → Type 0 where
  none_left : AllForwards [] []
  one_more :
      (outs ms : List Message) (out m : Message)
      → AllForwards outs ms
      → Forwards out m
      → AllForwards (outs ++ out ∷ []) (ms ++ m ∷ [])

-- The messages that a run brings.
unfoldable pub arrived : List Event → List Message
arrived [] = []
arrived (arrives m ∷ es) = m ∷ arrived es
arrived (signals signal ∷ es) = arrived es
arrived (breaks signal m ∷ es) = arrived es
arrived (mains ∷ es) = arrived es

-- Neither signals nor messages that are not plain.
abbrev pub Quiet : ℕ → Event → Type 0
Quiet n (arrives m) = IsPlain n m
Quiet n (signals signal) = ⊥
Quiet n (breaks signal m) = ⊥
Quiet n mains = Unit

-- What the server is, between `received`, what arrived so far, and what it sent.
pub record Relays (n : ℕ) (received : List Message) (s : Relay) : Type 0 where
  pub working : s.is_working ≡ true
  pub receives : s.receiving ≡ true
  pub serves : s.phase ≡ serving
  pub size : length s.message_send.buf ≡ n
  pub done : List Message
  pub parts : done ++ s.message_q ≡ received
  pub forwarded : AllForwards s.sent done
  pub plain : All (IsPlain n) s.message_q

IsPlain-append :
    (n : ℕ) (ms : List Message) (m : Message)
    → All (IsPlain n) ms
    → IsPlain n m
    → All (IsPlain n) (ms ++ m ∷ [])
IsPlain-append n [] m h k = (k, tt)
IsPlain-append n (x ∷ ms) m h k = (h.0, IsPlain-append n ms m h.1 k)

pub recv_receiving :
    (m : Message) (s : Relay)
    → s.receiving ≡ true
    → recv m s ≡ record s { message_q = s.message_q ++ m ∷ []; receiving = s.is_working }
unfolding recv
recv_receiving m s h =
    ap
      (λ b.
        if b then record s { message_q = s.message_q ++ m ∷ []; receiving = s.is_working } else s)
      h

pub Relays-recv :
    (n : ℕ) (received : List Message) (m : Message) (s : Relay)
    → IsPlain n m
    → Relays n received s
    → Relays n (received ++ m ∷ []) (recv m s)
Relays-recv n received m s p r =
    subst (Relays n (received ++ m ∷ [])) (sym (recv_receiving m s r.receives)) (record {
      working = r.working;
      receives = r.working;
      serves = r.serves;
      size = r.size;
      done = r.done;
      parts = sym (append_assoc r.done s.message_q (m ∷ [])) ∙ ap (λ ms. ms ++ m ∷ []) r.parts;
      forwarded = r.forwarded;
      plain = IsPlain-append n s.message_q m r.plain p;
    })

-- A pass of the inner loop.
pub Relays-forward :
    (other : Directive) (pid : ℤ) (n : ℕ) (received ms : List Message) (m : Message) (s : Relay)
    → s.message_q ≡ m ∷ ms
    → Relays n received s
    → (t : Relay) × (forward other pid m (record s { message_q = ms }) ≡ ok t)
      × (t.message_q ≡ ms)
      × Relays n received t
Relays-forward other pid n received ms m s e r =
    let plain : All (IsPlain n) (m ∷ ms) = subst (All (IsPlain n)) e r.plain in
    let p = plain.0 in
    let (buf, sized, text, result) =
      forward_plain other pid m (record s { message_q = ms }) p.text p.rest p.shown p.free
        p.undirected (rw r.size p.room) in
    let out : Message = record { mtype = m.dest; source = m.source; dest = m.dest; buf = buf } in
    let taken : msgsnd out s.sent ≡ s.sent ++ out ∷ [] =
      unfold msgsnd in ap (λ b. if b then s.sent ++ out ∷ [] else s.sent) p.receiver in
    (
      record s { message_q = ms; message_send = out; sent = s.sent ++ out ∷ [] },
      result
          ∙ ap
              (λ (l : List Message). ok (record s { message_q = ms; message_send = out; sent = l }))
              taken,
      refl,
      record {
        working = r.working;
        receives = r.receives;
        serves = r.serves;
        size = sized ∙ r.size;
        done = r.done ++ m ∷ [];
        parts = append_assoc r.done (m ∷ []) ms ∙ ap (λ q. r.done ++ q) (sym e) ∙ r.parts;
        forwarded = one_more s.sent r.done out m r.forwarded (record {
          to = refl;
          source = refl;
          dest = refl;
          text = text ∙ sym (ap c_string p.shown ∙ c_string-append p.text p.rest p.free);
        });
        plain = plain.1;
      },
    )

-- A step of `main`, whose queue is then one message shorter, unless it was empty.
pub Relays-main :
    (other : Directive) (pid : ℤ) (n : ℕ) (received : List Message) (s : Relay)
    → Relays n received s
    → (t : Relay) × (main_step other pid s.phase s ≡ ok t)
      × (length t.message_q ≡ length s.message_q - 1)
      × Relays n received t
unfolding main_step serve
Relays-main other pid n received s r =
    subst
      (λ p.
        (t : Relay) × (main_step other pid p s ≡ ok t)
        × (length t.message_q ≡ length s.message_q - 1)
        × Relays n received t)
      (sym r.serves) (on_queue s.message_q refl)
  where
    on_queue :
        (q : List Message)
        → s.message_q ≡ q
        → (t : Relay) × (serve other pid s.message_q s ≡ ok t)
          × (length t.message_q ≡ length s.message_q - 1)
          × Relays n received t
    on_queue [] e = (
      s,
      ap (λ q. serve other pid q s) e
          ∙ ap
              (λ b.
                if b then ok s else (send_quits 0 3 s >>= λ t. ok (record t { phase = joining })))
              r.working,
      rw e refl,
      r,
    )
    on_queue (m ∷ ms) e =
        let (t, result, rest, kept) = Relays-forward other pid n received ms m s e r in
        (t, ap (λ q. serve other pid q s) e ∙ result, rw (rest, e) (omega arith), kept)

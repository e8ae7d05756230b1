-- ===== src/MessageRelay/Tests.antt =====
-- Labs/Lab 8/server.cpp at concrete inputs: uses of the theorems.
use dps912_unix.Base.{
  Bytes, [], arith, c_string, codes, decimal, digits_onto, fault, inl, ok, pos, refl, replicate,
  store, true, uninitialised, wild_pointer, ◌++◌, ◌>>=◌, ◌∷◌, ◌≡◌,
}
use dps912_unix.MessageRelay.{
  breaks, relays, start, Directive, Relay, arrives, finished, forward, mains, printf_text, run,
  serving, signals, Message,
}
use dps912_unix.MessageRelay.Forwarding.{AllForwards, IsPlain, arrived}
use dps912_unix.MessageRelay.Order.{server_forwards}
use dps912_unix.MessageRelay.Quits.{quits}
use dps912_unix.MessageRelay.Shutdown.{broken, interrupted_waits, Joins, IsLocal}
use dps912_unix.MessageRelay.Formats.{forward_wild}

abbrev say : Bytes → Message
say text = record { mtype = pos 4; source = pos 1; dest = pos 2; buf = text ++ 0 ∷ 0 ∷ [] }

abbrev idle : Relay
idle = record {
  is_working = true;
  message_q = [];
  message_send = record { mtype = pos 0; source = pos 0; dest = pos 0; buf = replicate 8 7 };
  sent = [];
  receiving = true;
  phase = serving;
  screen = [];
}

abbrev refuses : Directive
refuses text = fault uninitialised

greeting : IsPlain 8 (say (codes "hi"))
greeting = record {
  text = codes "hi";
  rest = 0 ∷ [];
  shown = refl;
  free = ((λ e. absurd (omega arith)), ((λ e. absurd (omega arith)), tt));
  undirected = ((λ e. absurd (omega arith)), ((λ e. absurd (omega arith)), tt));
  room = omega arith;
  receiver = refl;
}

server_forwards_example :
    (s : Relay) × (start (pos 0) (pos 0) idle.message_send ≡ ok (relays s))
    × (t : Relay) × (run refuses
          (pos 77)
          ((arrives (say (codes "hi")) ∷ mains ∷ arrives (say (codes "hi")) ∷ [])
            ++ replicate 2 mains)
          s
        ≡ ok t)
    × (t.message_q ≡ [])
    × AllForwards t.sent
        (arrived (arrives (say (codes "hi")) ∷ mains ∷ arrives (say (codes "hi")) ∷ []))
server_forwards_example =
    server_forwards refuses (pos 77) 0 2
      (arrives (say (codes "hi")) ∷ mains ∷ arrives (say (codes "hi")) ∷ []) idle.message_send
      (greeting, (tt, (greeting, tt))) (unfold arrived in omega arith)

-- The second SIGINT is handled by the receiving thread.
interrupted_waits_example :
    (t : Relay) × (u : Relay) × (run refuses
        (pos 77)
        (signals 2 ∷ mains ∷ mains ∷ signals 2 ∷ mains ∷ [])
        idle
      ≡ ok t)
    × Joins (quits idle.message_send) t
    × (run refuses
          (pos 77)
          ((signals 2 ∷ mains ∷ mains ∷ signals 2 ∷ mains ∷ [])
            ++ breaks 2 idle.message_send ∷ mains ∷ [])
          idle
        ≡ ok u)
    × (u.phase ≡ finished)
    × (u.message_q ≡ idle.message_send ∷ [])
    × (u.sent ≡ quits idle.message_send)
unfolding IsLocal
interrupted_waits_example =
    interrupted_waits refuses (pos 77) (mains ∷ signals 2 ∷ mains ∷ []) (breaks 2 idle.message_send)
      idle.message_send idle refl refl refl (omega arith) (tt, (tt, (tt, tt))) (broken 2 _)

-- "a%s".
forward_wild_example : forward refuses (pos 77) (say (codes "a%s")) idle ≡ fault wild_pointer
forward_wild_example =
    forward_wild refuses (pos 77) (say (codes "a%s")) idle (codes "a") [] (0 ∷ []) b's' refl
      (
        (λ e. absurd (omega arith)),
        ((λ e. absurd (omega arith)), ((λ e. absurd (omega arith)), tt)),
      )
      ((λ e. absurd (omega arith)), tt) (inl refl)

-- "%d" prints the process id.
number_test :
    (forward refuses (pos 77) (say (codes "p%d")) idle >>= λ t. c_string t.message_send.buf)
    ≡ ok (codes "p77")
unfolding forward printf_text c_string store decimal digits_onto
number_test = refl

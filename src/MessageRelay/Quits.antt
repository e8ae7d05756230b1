-- ===== src/MessageRelay/Quits.antt =====
-- Labs/Lab 8/server.cpp, the messages that tell the clients to quit.
use dps912_unix.Base.{
  Bytes, List, Outcome, [], ap, append_assoc, arith, codes, drop, length, ok, pos, store_text, ℤ,
  ◌++◌, ◌<◌, ◌>>=◌, ◌∙◌, ◌∷◌, ◌≡◌,
}
use dps912_unix.MessageRelay.{msgsnd, Relay, send_quit, send_quits, Message}

-- What the loop of `main` sends to a client over the message before.
unfoldable pub quit : ℤ → Message → Message
quit mtype m = record m { mtype = mtype; source = pos 4; buf = codes "Quit" ++ 0 ∷ drop 5 m.buf }

send_quit_lem :
    (mtype : ℤ) (s : Relay)
    → 4 < length s.message_send.buf
    → send_quit mtype s
      ≡ ok (record s {
        message_send = quit mtype s.message_send;
        sent = msgsnd (quit mtype s.message_send) s.sent;
      })
unfolding send_quit quit
send_quit_lem mtype s h =
    ap
      (λ (o : Outcome Bytes). o >>= λ buf.
        let message : Message = record s.message_send {
          mtype = mtype;
          source = pos 4;
          buf = buf;
        } in
        ok (record s { message_send = message; sent = msgsnd message s.sent }))
      (store_text s.message_send.buf (codes "Quit") h)

room_after : (mtype : ℤ) (m : Message) → 4 < length (quit mtype m).buf
unfolding quit
room_after mtype m = omega arith

-- The messages to the three clients.
unfoldable pub quits : Message → List Message
unfolding quit
quits m =
    let first = quit (pos 1) m in
    let second = quit (pos 2) first in first ∷ second ∷ quit (pos 3) second ∷ []

pub send_quits_lem :
    (s : Relay)
    → 4 < length s.message_send.buf
    → send_quits 0 3 s
      ≡ ok (record s {
        message_send = quit (pos 3) (quit (pos 2) (quit (pos 1) s.message_send));
        sent = s.sent ++ quits s.message_send;
      })
unfolding send_quits quits msgsnd quit
send_quits_lem s h =
    let first = quit (pos 1) s.message_send in
    let second = quit (pos 2) first in
    let t = record s { message_send = first; sent = s.sent ++ first ∷ [] } in
    let u = record t { message_send = second; sent = t.sent ++ second ∷ [] } in
    ap (λ o. o >>= λ t. send_quits 1 2 t) (send_quit_lem (pos 1) s h)
    ∙ ap (λ o. o >>= λ t. send_quits 2 1 t)
        (send_quit_lem (pos 2) t (room_after (pos 1) s.message_send))
    ∙ ap (λ o. o >>= λ t. send_quits 3 0 t) (send_quit_lem (pos 3) u (room_after (pos 2) first))
    ∙ ap (λ (l : List Message). ok (record s { message_send = quit (pos 3) second; sent = l }))
        (append_assoc (s.sent ++ first ∷ []) (second ∷ []) (quit (pos 3) second ∷ [])
          ∙ append_assoc s.sent (first ∷ []) (second ∷ quit (pos 3) second ∷ []))

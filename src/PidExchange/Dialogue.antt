-- ===== src/PidExchange/Dialogue.antt =====
-- Labs/Lab 6, the client and the server together.
use dps912_unix.Base.{
  decimal-NulFree, ==_of_ne, leb_of_le, length-append, refl, string_eq, Bytes, List, NulFree,
  Outcome, [], arith, c_string, codes, decimal, length, none, ok, some, take, true, ℤ, ◌++◌, ◌>>=◌,
  ◌∷◌, ◌≡◌, ◌≤◌,
}
use dps912_unix.PidExchange.{
  client_print, client_text, client_write, pid_reply, read_text, server_text, Answer, Client,
  buffer, client_start, client_step, finished, served, server_start, server_step, Server,
}

-- The last message that was sent, which the other side reads whole, with a write that succeeds.
pub heard : List Bytes → Answer
heard [] = record { chunk = none; written = true }
heard (m ∷ []) = record { chunk = some m; written = true }
heard (m ∷ n ∷ ms) = heard (n ∷ ms)

client_hears : Client → Server → Outcome Client
client_hears c s = client_step (heard s.sent) c

server_hears : Client → Server → Outcome Server
server_hears c s = server_step (heard c.client_sent) s

-- Both programs from start to end.
pub dialogue : ℤ → Outcome (Client × Server)
dialogue own_pid = do
  s0 ←
      server_start
        (record { socket_made = true; bound = true; accepted = true; pid_written = true })
  c0 ← client_start own_pid true true
  c1 ← client_hears c0 s0
  s1 ← server_hears c1 s0
  c2 ← client_hears c1 s1
  s2 ← server_hears c2 s1
  c3 ← client_hears c2 s2
  ok (c3, s2)

-- The client's end: all that it was asked.
pub done : ℤ → Client
done own_pid = record {
  pid = own_pid;
  client_phase = finished;
  client_sent = take 4 (decimal own_pid ++ 0 ∷ []) ∷ (codes "Done" ++ 0 ∷ []) ∷ [];
  client_screen =
      codes "An request for the clients pid has been recieved."
      ∷ codes "This client is going to sleep for 5 seconds..."
      ∷ codes "This client is quitting."
      ∷ [];
}

unfoldable pub told : ℤ → Server
told own_pid = record {
  phase = served;
  sent = codes "Pid" ∷ codes "Sleep" ∷ codes "Quit" ∷ [];
  screen =
      codes "Waiting for the client..."
      ∷ codes "The server requests the client's pid"
      ∷ (codes "This client has pid: " ++ take 4 (decimal own_pid))
      ∷ codes "The server requests the client to sleep"
      ∷ codes "The server requests the client to quit"
      ∷ [];
}

-- The reply as the server reads it.
reply_text :
    (digits : Bytes)
    → NulFree digits
    → 3 ≤ length digits
    → c_string (buffer (take 4 (digits ++ 0 ∷ []))) ≡ ok (take 4 digits)
unfolding buffer c_string
reply_text [] free long = absurd (omega arith)
reply_text (a ∷ []) free long = absurd (omega arith)
reply_text (a ∷ b ∷ []) free long = absurd (omega arith)
reply_text (a ∷ b ∷ c ∷ []) free long =
    rw (==_of_ne a 0 free.0, ==_of_ne b 0 free.1.0, ==_of_ne c 0 free.1.1.0, ◌>>=◌) refl
reply_text (a ∷ b ∷ c ∷ d ∷ rest) free long =
    rw
      (
        ==_of_ne a 0 free.0,
        ==_of_ne b 0 free.1.0,
        ==_of_ne c 0 free.1.1.0,
        ==_of_ne d 0 free.1.1.1.0,
        ◌>>=◌,
      )
      refl

pid_reply_lem :
    (own_pid : ℤ)
    → 3 ≤ length (decimal own_pid)
    → pid_reply own_pid ≡ ok (take 4 (decimal own_pid ++ 0 ∷ []))
unfolding pid_reply
pid_reply_lem own_pid long =
    rw
      (leb_of_le 4 (length (decimal own_pid ++ 0 ∷ []))
        (omega (arith, length-append (decimal own_pid) (0 ∷ []))))
      refl

-- A client whose process id has three digits at least, and a server, talk from start to end, with
-- writes that succeed and reads that take one message each: "Pid", "Sleep" and "Quit" are each
-- understood, and both programs come to their ends. But the client sends four bytes of its digits, so
-- the server shows no more than the first four of them.
pub dialogue_lem :
    (own_pid : ℤ)
    → 3 ≤ length (decimal own_pid)
    → dialogue own_pid ≡ ok (done own_pid, told own_pid)
unfolding dialogue client_hears server_hears done told client_start server_start client_step
    server_step heard client_text server_text client_write client_print read_text string_eq
dialogue_lem own_pid long =
    let asked : c_string (buffer (codes "Pid")) ≡ ok (codes "Pid") =
      unfold c_string buffer in refl in
    let sleeps : c_string (buffer (codes "Sleep")) ≡ ok (codes "Sleep") =
      unfold c_string buffer in refl in
    let quits : c_string (buffer (codes "Quit")) ≡ ok (codes "Quit") =
      unfold c_string buffer in refl in
    let answered : c_string (buffer (codes "Done" ++ 0 ∷ [])) ≡ ok (codes "Done") =
      unfold c_string buffer in refl in
    rw (asked, ◌>>=◌)
      (rw (pid_reply_lem own_pid long, ◌>>=◌)
        (rw (reply_text (decimal own_pid) (decimal-NulFree own_pid) long, ◌>>=◌)
          (rw (sleeps, ◌>>=◌) (rw (answered, ◌>>=◌) (rw (quits, ◌>>=◌) refl)))))

-- ===== src/IntfMonitor/Protocol.antt =====
-- Assignments/A1/intfMonitor.cpp, the commands of netMonitor and what the monitor answers.
use dps912_unix.Messages.{receive_message, filled, send_message}
use dps912_unix.Base.{
  if◌then◌else◌, List, append-nil, append_assoc, ◌>>=◌, ◌∷◌, ap, c_string, ◌∙◌, Bool, Bytes, [],
  arith, codes, false, ltb_ℤ, ok, pos, refl, string_eq, true, ◌++◌, ◌≡◌,
}
use dps912_unix.IntfMonitor.{
  display, display_lines, run, run_phase, read_stream, Phase, Stats, World, again, answer,
  await_message, displaying, done, gathering, interface_up, send, step, waiting, Monitor,
}
use dps912_unix.IntfMonitor.Display.{arrivals, step_displaying, print_lines-block, block}

pub data Command : Type 0 where
  monitor set_link_up shut_down : Command

-- The protocol: the text of a command, the reply, and the phase that follows.
unfoldable pub text : Command → Bytes
text monitor = codes "Monitor"
text set_link_up = codes "Set Link Up"
text shut_down = codes "Shut Down"

unfoldable pub reply : Command → Bytes
reply monitor = codes "Monitoring"
reply set_link_up = codes "Link Up"
reply shut_down = codes "Done"

unfoldable pub next_phase : Command → Stats → Phase
next_phase monitor t = displaying t
next_phase set_link_up t = gathering
next_phase shut_down t = done

unfoldable pub stays_open : Command → Bool
stays_open shut_down = false
stays_open _ = true

-- The state and its stream when a command waits, read from a stream that holds nothing else.
answer_command :
    (c : Command) (t : Stats) (w : World) (m : Monitor)
    → m.is_working ≡ true
    → m.fd_open ≡ true
    → m.inbox ≡ []
    → (c ≡ set_link_up → ltb_ℤ (interface_up w m.folders) (pos 0) ≡ false)
    → (n : Monitor) × (answer w t (text c) m ≡ ok n)
      × (n.outbox ≡ m.outbox ++ send_message (reply c))
      × (n.phase ≡ next_phase c t)
      × (n.inbox ≡ [])
      × (n.fd_open ≡ stays_open c)
      × (n.is_working ≡ stays_open c)
unfolding answer text reply next_phase stays_open string_eq
answer_command monitor t w m working fd empty granted = (_, refl, refl, refl, empty, fd, working)
answer_command set_link_up t w m working fd empty granted = (
  again (send (codes "Link Up") m),
  rw (granted refl) refl,
  refl,
  ground arith,
  empty,
  fd,
  working,
)
answer_command shut_down t w m working fd empty granted = (_, refl, refl, refl, empty, refl, refl)

read_stream_command :
    (c : Command) (t : Stats) (w : World) (m : Monitor)
    → read_stream (send_message (text c)) w t m
      ≡ answer w t
          (text c)
          (record m { inbox = []; buffer = filled (send_message (text c)) m.buffer })
unfolding read_stream receive_message filled send_message c_string text
read_stream_command monitor t w m = refl
read_stream_command set_link_up t w m = refl
read_stream_command shut_down t w m = refl

pub step-waiting :
    (t : Stats) (w : World) (m : Monitor) {stream : Bytes}
    → m.phase ≡ waiting t
    → m.inbox ++ w.arriving ≡ stream
    → step w m ≡ read_stream stream w t (record m { inbox = m.inbox ++ w.arriving })
unfolding step await_message
step-waiting t w m h e =
    let n = record m { inbox = m.inbox ++ w.arriving } in
    ap (λ p. run_phase p w n) h ∙ ap (λ s. read_stream s w t n) e

-- Each command of the protocol that waits alone in the stream of a working monitor is answered by its
-- one reply, at whatever values the files had: "Monitor" leads into the display loop, "Set Link Up"
-- (granted by the kernel) back to the files, and "Shut Down" closes the socket and ends the loop. The
-- stream is empty afterwards.
pub step-command :
    (c : Command) (t : Stats) (w : World) (m : Monitor)
    → m.phase ≡ waiting t
    → m.is_working ≡ true
    → m.fd_open ≡ true
    → m.inbox ++ w.arriving ≡ send_message (text c)
    → (c ≡ set_link_up → ltb_ℤ (interface_up w m.folders) (pos 0) ≡ false)
    → (n : Monitor) × (step w m ≡ ok n)
      × (n.outbox ≡ m.outbox ++ send_message (reply c))
      × (n.phase ≡ next_phase c t)
      × (n.inbox ≡ [])
      × (n.fd_open ≡ stays_open c)
      × (n.is_working ≡ stays_open c)
step-command c t w m h working fd stream granted =
    let read = record m { inbox = []; buffer = filled (send_message (text c)) m.buffer } in
    let (n, e, sent, phase, empty, fd', working') =
      answer_command c t w read working fd refl granted in
    (
      n,
      step-waiting t w m h stream ∙ read_stream_command c t w _ ∙ e,
      sent,
      phase,
      empty,
      fd',
      working',
    )

step-done :
    (w : World) (m : Monitor)
    → m.phase ≡ done
    → step w m ≡ ok (record m { inbox = m.inbox ++ w.arriving })
unfolding step
step-done w m h = ap (λ p. run_phase p w (record m { inbox = m.inbox ++ w.arriving })) h

-- A monitor that has stopped sends nothing more, whatever arrives.
pub run-done :
    (ws : List World) (m : Monitor)
    → m.phase ≡ done
    → run ws m ≡ ok (record m { inbox = m.inbox ++ arrivals ws })
unfolding run arrivals
run-done [] m h = rw (append-nil m.inbox) refl
run-done (w ∷ ws) m h =
    rw (step-done w m h, ◌>>=◌)
      (run-done ws (record m { inbox = m.inbox ++ w.arriving }) h
        ∙ rw (append_assoc m.inbox w.arriving (arrivals ws)) refl)

display_down :
    (t : Stats) (m : Monitor)
    → string_eq t.operstate (codes "down") ≡ true
    → display t m
      ≡ again (
          send
            (codes "Link down")
            (record m { screen = m.screen ++ block (display_lines m.folders t) }))
unfolding display
display_down t m h =
    rw h (
      ap (λ n. again (send (codes "Link down") n))
        (print_lines-block (display_lines m.folders t) m))

-- On "Monitor" the monitor of an interface that was down when its files were read shows it once: it
-- answers "Monitoring" and, one pass later, "Link down", behind one another in the stream, and goes back
-- to the files.
pub down_reports :
    (t : Stats) (w v : World) (m : Monitor)
    → m.phase ≡ waiting t
    → m.is_working ≡ true
    → m.fd_open ≡ true
    → m.inbox ++ w.arriving ≡ send_message (codes "Monitor")
    → string_eq t.operstate (codes "down") ≡ true
    → (n : Monitor) × (run (w ∷ v ∷ []) m ≡ ok n)
      × (n.outbox
          ≡ (m.outbox ++ send_message (codes "Monitoring")) ++ send_message (codes "Link down"))
      × (n.phase ≡ gathering)
      × (n.inbox ≡ v.arriving)
      × (n.is_working ≡ true)
      × (n.fd_open ≡ true)
unfolding run
down_reports t w v m h working fd stream down =
    let (n, e, sent, phase, empty, fd', working') =
      step-command monitor t w m h working fd (unfold text in stream) (λ e. cc) in
    let shown = record n {
      inbox = n.inbox ++ v.arriving;
      screen = n.screen ++ block (display_lines n.folders t);
    } in
    (
      again (send (codes "Link down") shown),
      rw (e, ◌>>=◌)
          (rw
            (
              step_displaying t v n (unfold next_phase in phase)
                  ∙ ap ok (display_down t (record n { inbox = n.inbox ++ v.arriving }) down),
              ◌>>=◌,
            )
            refl),
      unfold again send reply in ap (λ s. s ++ send_message (codes "Link down")) sent,
      unfold again send stays_open in ap (λ b. if b then gathering else done) working',
      unfold again send in ap (λ s. s ++ v.arriving) empty,
      unfold again send stays_open in working',
      unfold again send stays_open in fd',
    )

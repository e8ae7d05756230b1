-- ===== src/IntfMonitor/Display.antt =====
-- Assignments/A1/intfMonitor.cpp, the display loop.
use dps912_unix.Base.{
  Bytes, List, [], ap, append-nil, append_assoc, codes, false, length, ok, refl, string_eq, suc,
  zero, ◌++◌, ◌>>=◌, ◌∙◌, ◌∷◌, ◌≡◌, ℕ,
}
use dps912_unix.IntfMonitor.{
  Stats, World, display, display_lines, displaying, print_line, print_lines, run, step, Monitor,
}

-- What a pass writes on the screen, and what comes in during a run.
pub block : List Bytes → Bytes
block [] = []
block (line ∷ rest) = (line ++ 10 ∷ []) ++ block rest

pub times : ℕ → Bytes → Bytes
times zero text = []
times (suc n) text = text ++ times n text

unfoldable pub arrivals : List World → Bytes
arrivals [] = []
arrivals (w ∷ ws) = w.arriving ++ arrivals ws

pub print_lines-block :
    (lines : List Bytes) (m : Monitor)
    → print_lines lines m ≡ record m { screen = m.screen ++ block lines }
unfolding print_lines print_line block
print_lines-block [] m = rw (append-nil m.screen)
print_lines-block (line ∷ rest) m =
    print_lines-block rest _
    ∙ ap (λ (s : Bytes). record m { screen = s })
        (append_assoc m.screen (line ++ 10 ∷ []) (block rest))

-- A pass with a state other than "down".
display_up :
    (t : Stats) (m : Monitor)
    → string_eq t.operstate (codes "down") ≡ false
    → display t m ≡ record m { screen = m.screen ++ block (display_lines m.folders t) }
unfolding display
display_up t m h = rw h (print_lines-block (display_lines m.folders t) m)

pub step_displaying :
    (t : Stats) (w : World) (m : Monitor)
    → m.phase ≡ displaying t
    → step w m ≡ ok (display t (record m { inbox = m.inbox ++ w.arriving }))
unfolding step
step_displaying t w m h = rw h refl

-- The display loop of an interface that was not "down" when its state was read has no end: whatever
-- happens and whatever arrives, the monitor stays in it, shows the same values once for each step, sends
-- nothing, and leaves all that arrives unread, a "Shut Down" too.
pub display_never_ends :
    (t : Stats) (ws : List World) (m : Monitor)
    → m.phase ≡ displaying t
    → string_eq t.operstate (codes "down") ≡ false
    → run ws m
      ≡ ok (record m {
        inbox = m.inbox ++ arrivals ws;
        screen = m.screen ++ times (length ws) (block (display_lines m.folders t));
      })
unfolding run arrivals times
display_never_ends t [] m h up = rw (append-nil m.inbox, append-nil m.screen) refl
display_never_ends t (w ∷ ws) m h up =
    let n = record m {
      inbox = m.inbox ++ w.arriving;
      screen = m.screen ++ block (display_lines m.folders t);
    } in
    let first : step w m ≡ ok n =
      step_displaying t w m h
      ∙ ap ok (display_up t (record m { inbox = m.inbox ++ w.arriving }) up) in
    rw (first, ◌>>=◌)
      (display_never_ends t ws n h up
        ∙ rw
            (
              append_assoc m.inbox w.arriving (arrivals ws),
              append_assoc m.screen (block (display_lines m.folders t)) _,
            )
            refl)

-- ===== src/LogServer/Menu.antt =====
-- Assignments/A2/LogServer.cpp, the menus of `main` and `setlevel_log`.
use dps912_unix.Base.{
  ap, is_zero, List, false, none, some, true, ◌∙◌, Bytes, arith, codes, negsuc, ok, pos, refl, suc,
  zero, ℤ, ◌+◌, ◌∷◌, ◌≡◌, ℕ,
}
use dps912_unix.LogServer.Commands.{Keeps, level_choice_total}
use dps912_unix.LogServer.{
  unstored, Word, dump, level_menu, lines, main_loop, main_menu, menu_choice, menu_round, number,
  print, print_line, read_level_log, set_level_log, level_choice, read_int, Server,
}

pub read_int-number :
    (n : ℤ) (words : List Word) (s : Server)
    → s.cin_failed ≡ false
    → s.cin ≡ number n ∷ words
    → read_int s ≡ (n, record s { cin = words })
unfolding read_int
read_int-number n words s h e = ground arith

pub main_loop_stops :
    (fuel : ℕ) (s : Server) → s.input_working ≡ false → main_loop (suc fuel) s ≡ some (ok s)
unfolding main_loop
main_loop_stops fuel s h = ground arith

pub main_loop_next :
    (fuel : ℕ) (s t : Server)
    → s.input_working ≡ true
    → menu_round s ≡ ok t
    → main_loop (suc fuel) s ≡ main_loop fuel t
unfolding main_loop
main_loop_next fuel s t h e = ground arith

-- A server at its menu whose standard input has ended, and whose `user_choice` happens never to hold 0.
pub record Spins (s : Server) : Type 0 where
  pub ended : s.cin_failed ≡ true
  pub goes_on : s.input_working ≡ true
  pub file : Bytes
  pub there : s.log_file ≡ some file
  pub nonzero : (n : ℕ) → is_zero (s.indeterminate n) ≡ false

read_int_ended : (s : Server) → s.cin_failed ≡ true → read_int s ≡ unstored s
unfolding read_int
read_int_ended s h = simp h

unstored-Spins : (s : Server) → Spins s → Spins (unstored s).1
unfolding unstored
unstored-Spins s h = record {
  ended = refl;
  goes_on = h.goes_on;
  file = h.file;
  there = h.there;
  nonzero = λ n. h.nonzero (n + 1);
}

main_menu-Spins : (s : Server) → Spins s → Spins (main_menu s)
unfolding main_menu print print_line
main_menu-Spins s h = record {
  ended = h.ended;
  goes_on = h.goes_on;
  file = h.file;
  there = h.there;
  nonzero = h.nonzero;
}

level_menu-Spins : (s : Server) → Spins s → Spins (level_menu s)
unfolding level_menu print print_line
level_menu-Spins s h = record {
  ended = h.ended;
  goes_on = h.goes_on;
  file = h.file;
  there = h.there;
  nonzero = h.nonzero;
}

print-Spins : (text : Bytes) (s : Server) → Spins s → Spins (print text s)
unfolding print
print-Spins text s h = record {
  ended = h.ended;
  goes_on = h.goes_on;
  file = h.file;
  there = h.there;
  nonzero = h.nonzero;
}

Keeps-Spins : (s t : Server) → Keeps s t → Spins s → Spins t
Keeps-Spins s t k h = record {
  ended = k.same_failed ∙ h.ended;
  goes_on = k.same_input ∙ h.goes_on;
  file = h.file;
  there = k.same_file ∙ h.there;
  nonzero = λ n. ap (λ places. is_zero (places n)) k.same_places ∙ h.nonzero n;
}

set_level_log-Spins : (s : Server) → Spins s → (t : Server) × (set_level_log s ≡ ok t) × Spins t
unfolding set_level_log
set_level_log-Spins s h =
    let h' = level_menu-Spins s h in
    let u = (unstored (level_menu s)).1 in
    let (t, e, k) = level_choice_total (unstored (level_menu s)).0 u in
    (
      t,
      ap (λ p. level_choice p.0 p.1) (read_int_ended (level_menu s) h'.ended) ∙ e,
      Keeps-Spins u t k (unstored-Spins (level_menu s) h'),
    )

read_level_log-Spins : (s : Server) → Spins s → (t : Server) × (read_level_log s ≡ ok t) × Spins t
unfolding read_level_log
read_level_log-Spins s h =
    (print (dump (lines h.file)) s, ground arith, print-Spins (dump (lines h.file)) s h)

menu_choice-Spins :
    (n : ℤ) (s : Server)
    → is_zero n ≡ false
    → Spins s
    → (t : Server) × (menu_choice n s ≡ ok t) × Spins t
unfolding menu_choice print_line
menu_choice-Spins (negsuc n) s nonzero h = (_, refl, print-Spins _ s h)
menu_choice-Spins (pos zero) s nonzero h = absurd cc
menu_choice-Spins (pos (suc zero)) s nonzero h = set_level_log-Spins s h
menu_choice-Spins (pos (suc (suc zero))) s nonzero h = read_level_log-Spins s h
menu_choice-Spins (pos (suc (suc (suc n)))) s nonzero h = (
  print_line (codes "The user choice was invalid! Please choose between 0, 1, 2") s,
  ground arith,
  print-Spins _ s h,
)

menu_round-Spins : (s : Server) → Spins s → (t : Server) × (menu_round s ≡ ok t) × Spins t
unfolding menu_round
menu_round-Spins s h =
    let h' = main_menu-Spins s h in
    let nonzero : is_zero (unstored (main_menu s)).0 ≡ false = unfold unstored in h'.nonzero 0 in
    let (t, e, k) =
      menu_choice-Spins (unstored (main_menu s)).0 (unstored (main_menu s)).1 nonzero
        (unstored-Spins (main_menu s) h') in
    (t, ap (λ p. menu_choice p.0 p.1) (read_int_ended (main_menu s) h'.ended) ∙ e, k)

-- Once the standard input has ended, nothing is stored in `user_choice` any more: with the log file there, the
-- loop of `main` comes to no end and to no fault in any number of passes, as long as that variable happens not
-- to hold 0.
pub main_loop_forever : (fuel : ℕ) (s : Server) → Spins s → main_loop fuel s ≡ none
unfolding main_loop
main_loop_forever zero s h = refl
main_loop_forever (suc fuel) s h =
    let (t, e, k) = menu_round-Spins s h in
    main_loop_next fuel s t h.goes_on e ∙ main_loop_forever fuel t k

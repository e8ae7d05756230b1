-- ===== src/LogServer/Start.antt =====
-- Assignments/A2/LogServer.cpp, `main` from its start.
use dps912_unix.Base.{
  Option, Outcome, ap, arith, exit_failure, fault, if◌then◌else◌, ltb_of_le, ltb_ℤ, pos, some, ℤ,
  ◌+◌, ◌∙◌, ◌≡◌, ℕ,
}
use dps912_unix.LogServer.{main_loop, Server}

-- The results of `socket` and `bind` end the program or let it go on to its loop, on fuel; `none` means that
-- the fuel ran out.
unfoldable pub main : ℤ → ℤ → ℕ → Server → Option (Outcome Server)
main fd bound fuel s =
    if ltb_ℤ fd (pos 0)
    then some (fault exit_failure)
    else if ltb_ℤ bound (pos 0)
    then some (fault exit_failure)
    else main_loop fuel s

pub main-main_loop :
    (fd bound fuel : ℕ) (s : Server) → main (pos fd) (pos bound) fuel s ≡ main_loop fuel s
unfolding main
main-main_loop fd bound fuel s =
    ap
      (λ b.
        if b
        then some (fault exit_failure)
        else if ltb_ℤ (pos bound) (pos 0)
        then some (fault exit_failure)
        else main_loop fuel s)
      (ltb_of_le (fd + 0) (0 + 0) (omega arith))
    ∙ ap (λ b. if b then some (fault exit_failure) else main_loop fuel s)
        (ltb_of_le (bound + 0) (0 + 0) (omega arith))

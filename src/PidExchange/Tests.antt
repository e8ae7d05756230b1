-- ===== src/PidExchange/Tests.antt =====
-- Labs/Lab 6 at a concrete input: a use of the theorem.
use dps912_unix.Base.{arith, codes, decimal, get_elem?, ok, pos, refl, some, ◌≡◌}
use dps912_unix.PidExchange.Dialogue.{dialogue, done, told, dialogue_lem}

dialogue_lem_example : dialogue (pos 48213) ≡ ok (done (pos 48213), told (pos 48213))
dialogue_lem_example = dialogue_lem (pos 48213) (unfold decimal in omega arith)

-- Only "4821" is shown.
shown : get_elem? (told (pos 48213)).screen 2 ≡ some (codes "This client has pid: 4821")
unfolding told decimal
shown = refl

-- ===== src/NetMonitor/Children.antt =====
-- Assignments/A1/netMonitor.cpp, the names of the interfaces and the children that get them.
use dps912_unix.Base.{
  Bytes, List, [], ap, arith, fault, length, ok, out_of_bounds, refl, replicate, suc, zero, ◌+◌,
  ◌∷◌, ◌≡◌, ◌≤◌, ℕ,
}
use dps912_unix.NetMonitor.{child_argument, child_arguments, first_two}

child_argument_beyond :
    (first second : Bytes) (i : ℕ)
    → 2 ≤ i
    → child_argument (first ∷ second ∷ []) i ≡ fault out_of_bounds
unfolding child_argument
child_argument_beyond first second zero h = absurd (omega arith)
child_argument_beyond first second (suc zero) h = absurd (omega arith)
child_argument_beyond first second (suc (suc i)) h = refl

child_arguments_beyond :
    (first second : Bytes) (i more : ℕ)
    → 2 ≤ i
    → child_arguments i more (first ∷ second ∷ []) ≡ replicate more (fault out_of_bounds)
unfolding child_arguments
child_arguments_beyond first second i zero h = refl
child_arguments_beyond first second i (suc more) h =
    rw
      (
        child_argument_beyond first second i h,
        child_arguments_beyond first second (i + 1) more (omega arith),
      )
      refl

-- For two interfaces or more, the first two children get their interfaces' names, and every further
-- child reads past the end of the array of names.
pub children_beyond_two :
    (first second : Bytes) (rest : List Bytes)
    → (first_two (first ∷ second ∷ rest) ≡ ok (first ∷ second ∷ []))
      × (child_arguments 0 (length (first ∷ second ∷ rest)) (first ∷ second ∷ [])
          ≡ ok first ∷ ok second ∷ replicate (length rest) (fault out_of_bounds))
unfolding first_two child_arguments child_argument
children_beyond_two first second rest = (
  refl,
  ap (λ os. ok first ∷ ok second ∷ os)
      (child_arguments_beyond first second 2 (length rest) (omega arith)),
)

-- ===== src/HardwareDevice/Unload.antt =====
-- Labs/Lab 4/hardwareDevice.c, the thread when the module is unloaded.
use dps912_unix.Base.{
  Bool-cases, [], ap, fault, inl, inr, refl, wild_pointer, ◌==◌, ◌>>=◌, ◌∙◌, ◌∷◌, ◌≡◌,
}
use dps912_unix.HardwareDevice.{
  Codes, Thread, absent, fresh, go_on_removed, hardware_device_exit, in_inner, in_outer, inserted,
  meets, module_run, module_step, returned, unloads, wakes, Device,
}
use dps912_unix.HardwareDevice.Reach.{Reached, Reached-Shows, Shows, ShowsAt}

-- Nothing in `module_exit` touches the thread or waits for it.
thread-exit : (d : Device) → (hardware_device_exit d).thread ≡ d.thread
unfolding hardware_device_exit
thread-exit d = elim (Bool-cases (d.major_number == 0)) [ inl e ↦ rw e refl | inr e ↦ rw e refl ]

-- A thread that shows something still has code to run.
go_on_removed-ShowsAt : (d : Device) → Shows d → go_on_removed d.thread ≡ fault wild_pointer
unfolding Shows ShowsAt go_on_removed
go_on_removed-ShowsAt d s = at d.thread s.1
  where
    at : (p : Thread) → ShowsAt p d.buffer → go_on_removed p ≡ fault wild_pointer
    at absent s = absurd s
    at fresh s = refl
    at in_inner s = refl
    at in_outer s = refl
    at returned s = absurd s

-- Whenever a registered device is unloaded, halted or not, its thread is not at its end: the next time that
-- it wakes up, it goes on in the code of a module that the kernel has freed.
pub unload_faults :
    {c : Codes} {d : Device}
    → Reached c d
    → module_run c (unloads ∷ meets wakes ∷ []) (inserted d) ≡ fault wild_pointer
unfolding module_run module_step
unload_faults {c} {d} reached =
    ap (λ p. go_on_removed p >>= λ n. module_run c [] n) (thread-exit d)
    ∙ ap (λ o. o >>= λ n. module_run c [] n) (go_on_removed-ShowsAt d (Reached-Shows reached))

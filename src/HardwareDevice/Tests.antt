-- ===== src/HardwareDevice/Tests.antt =====
-- Labs/Lab 4/hardwareDevice.c at concrete inputs: uses of the theorems.
use dps912_unix.Base.{
  [], fault, wild_pointer, arith, false, inl, pos, refl, replicate, true, ◌%◌, ◌++◌, ◌+◌, ◌∷◌, ◌≡◌,
}
use dps912_unix.HardwareDevice.{
  Codes, fresh, hardware_device_init, in_inner, ioctls, loaded, inserted, meets, module_run, run,
  step, unloads, wakes, Device,
}
use dps912_unix.HardwareDevice.Letters.{letters}
use dps912_unix.HardwareDevice.Reach.{Reached-Shows, later, registers, Shows}
use dps912_unix.HardwareDevice.Unload.{unload_faults}
use dps912_unix.HardwareDevice.Halts.{run_halt_resume}

abbrev commands : Codes
commands = record { halt = 1; resume = 2; apart = λ e. absurd (omega arith) }

abbrev running : Device
running = record {
  major_number = 240;
  registered = true;
  buffer = letters 24;
  is_running = true;
  is_halt = false;
  thread = in_inner;
}

abbrev registered_device : Device
registered_device = record loaded {
  major_number = 240;
  registered = true;
  is_running = true;
  is_halt = false;
  thread = fresh;
}

Reached-Shows_example : Shows (step commands wakes registered_device)
Reached-Shows_example = Reached-Shows (
    later wakes registered_device
      (registers 240 (pos 0) registered_device (unfold hardware_device_init in refl)))

-- After 'y' come 'z' and 'a'.
run_halt_resume_example :
    ((run commands (ioctls 1 ∷ replicate 3 wakes) running).buffer ≡ letters 24)
    × ((run commands
          ((ioctls 1 ∷ replicate 3 wakes) ++ ioctls 2 ∷ replicate 2 wakes)
          running).buffer
        ≡ letters ((24 + 2) % 26))
run_halt_resume_example = run_halt_resume commands 3 2 24 running refl (inl refl) (omega arith) refl

-- Halted, and then unloaded.
unload_faults_example :
    module_run commands
      (unloads ∷ meets wakes ∷ [])
      (inserted (step commands (ioctls 1) (step commands wakes registered_device)))
    ≡ fault wild_pointer
unload_faults_example = unload_faults (
    later (ioctls 1) (step commands wakes registered_device) (
      later wakes registered_device
        (registers 240 (pos 0) registered_device (unfold hardware_device_init in refl))))

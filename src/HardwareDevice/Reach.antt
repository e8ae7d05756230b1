-- ===== src/HardwareDevice/Reach.antt =====
-- Labs/Lab 4/hardwareDevice.c, the states that the loaded device comes to.
use mathlib.Core.Path.{subst}
use dps912_unix.Base.{
  false, Bool-cases, Bytes, arith, inl, inr, ok, pos, refl, replicate, sym, true, ◌==◌, ◌≡◌, ℕ, ℤ,
}
use dps912_unix.HardwareDevice.{
  Codes, Event, Thread, absent, buf_len, closes, fill, fresh, hardware_device_init,
  hardware_device_ioctl, in_inner, in_outer, inner_loop, ioctls, loaded, opens, outer_loop,
  resume_at, returned, step, task, wakes, Device,
}
use dps912_unix.HardwareDevice.Halts.{outer_running}
use dps912_unix.HardwareDevice.Letters.{fill-letters, HasLetters-advance, HasLetters}

-- The devices that a load which succeeds, and any later events, lead to.
pub data Reached (c : Codes) : Device → Type 0 where
  registers :
      (major : ℕ) (result : ℤ) (d : Device)
      → hardware_device_init (pos major) task loaded ≡ ok (result, d)
      → Reached c d
  later : (e : Event) (d : Device) → Reached c d → Reached c (step c e d)

-- The buffer, by where the thread is: empty before it has run, letters afterwards. It is never without a
-- thread that runs.
unfoldable pub ShowsAt : Thread → Bytes → Type 0
ShowsAt absent buffer = ⊥
ShowsAt fresh buffer = buffer ≡ replicate buf_len 0
ShowsAt in_inner buffer = HasLetters buffer
ShowsAt in_outer buffer = HasLetters buffer
ShowsAt returned buffer = ⊥

unfoldable pub Shows : Device → Type 0
Shows d = (d.is_running ≡ true) × ShowsAt d.thread d.buffer

Shows-inner_loop : (d : Device) → d.is_running ≡ true → HasLetters d.buffer → Shows (inner_loop d)
unfolding inner_loop Shows ShowsAt
Shows-inner_loop d running h = elim (Bool-cases d.is_halt) [
  | inl e ↦ rw e (running, h)
  | inr e ↦ rw e (running, HasLetters-advance d.buffer h)
]

Shows-outer_loop : (d : Device) → d.is_running ≡ true → HasLetters d.buffer → Shows (outer_loop d)
Shows-outer_loop d running h =
    subst Shows (sym (outer_running d running)) (Shows-inner_loop d running h)

-- The thread, wherever it is.
Shows-resume_at :
    (p : Thread) (d : Device) → d.is_running ≡ true → ShowsAt p d.buffer → Shows (resume_at p d)
unfolding resume_at ShowsAt
Shows-resume_at absent d running s = absurd s
Shows-resume_at fresh d running s =
    Shows-outer_loop (record d { buffer = fill d.buffer }) running
      (record { place = 0; small = omega arith; shown = fill-letters d.buffer })
Shows-resume_at in_inner d running s = Shows-inner_loop d running s
Shows-resume_at in_outer d running s = Shows-outer_loop d running s
Shows-resume_at returned d running s = absurd s

Shows-ioctl : (c : Codes) (cmd : ℕ) (d : Device) → Shows d → Shows (hardware_device_ioctl c cmd d).1
unfolding hardware_device_ioctl Shows
Shows-ioctl c cmd d s = elim (Bool-cases (cmd == c.halt)) [
  | inl e ↦ rw e s
  | inr e ↦ elim (Bool-cases (cmd == c.resume)) [ inl e' ↦ rw (e, e') s | inr e' ↦ rw (e, e') s ]
]

Shows-step : (c : Codes) (e : Event) (d : Device) → Shows d → Shows (step c e d)
unfolding step
Shows-step c opens d s = s
Shows-step c closes d s = s
Shows-step c (ioctls cmd) d s = Shows-ioctl c cmd d s
Shows-step c wakes d s = unfold Shows in Shows-resume_at d.thread d s.0 s.1

Shows-registered :
    (n : ℕ) (result : ℤ) (d : Device)
    → hardware_device_init (pos n) task loaded ≡ ok (result, d)
    → Shows d
unfolding hardware_device_init Shows ShowsAt
Shows-registered n result d e =
    let k = record loaded {
      major_number = n;
      registered = true;
      is_running = true;
      is_halt = false;
      thread = fresh;
    } in
    let same : k ≡ d = cc in subst Shows same (refl, refl)

-- In every state that a registered device comes to before it is unloaded, whatever is opened, closed and
-- commanded between the thread's passes, the thread has not returned and `is_running` is set; the buffer is
-- sixteen NULs until the thread has run, and from then on fifteen times one letter from 'a' to 'z' and a NUL.
pub Reached-Shows : {c : Codes} {d : Device} → Reached c d → Shows d
Reached-Shows (registers n result d e) = Shows-registered n result d e
Reached-Shows {c} (later e d reached) = Shows-step c e d (Reached-Shows reached)

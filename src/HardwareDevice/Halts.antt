-- ===== src/HardwareDevice/Halts.antt =====
-- Labs/Lab 4/hardwareDevice.c, the two commands.
use dps912_unix.Base.{
  pos, ==_of_ne, ==_refl, Bytes, List, [], ap, arith, false, if◌then◌else◌, inl, inr, not, refl,
  replicate, suc, sym, true, zero, ◌%◌, ◌++◌, ◌+◌, ◌<◌, ◌∙◌, ◌∷◌, ◌≡◌, ◌⊎◌, ℕ,
}
use dps912_unix.HardwareDevice.{
  Codes, Event, Thread, advance, hardware_device_ioctl, hardware_sim, in_inner, in_outer,
  inner_loop, ioctls, outer_loop, resume_at, returned, run, step, wakes, Device,
}
use dps912_unix.HardwareDevice.Letters.{advance-letters, letters}

-- A pass of the inner loop that is not halted, and one of either loop that is.
inner_free :
    (k : ℕ) (d : Device)
    → d.is_halt ≡ false
    → k < 26
    → d.buffer ≡ letters k
    → inner_loop d ≡ record d { buffer = letters ((k + 1) % 26); thread = in_inner }
unfolding inner_loop
inner_free k d free small shown =
    ap
      (λ b.
        if not b
        then record d { buffer = advance d.buffer; thread = in_inner }
        else record d { thread = in_outer })
      free
    ∙ ap (λ (b : Bytes). record d { buffer = b; thread = in_inner })
        (ap advance shown ∙ advance-letters k small)

inner_halted : (d : Device) → d.is_halt ≡ true → inner_loop d ≡ record d { thread = in_outer }
unfolding inner_loop
inner_halted d halted =
    ap
      (λ b.
        if not b
        then record d { buffer = advance d.buffer; thread = in_inner }
        else record d { thread = in_outer })
      halted

pub outer_running : (d : Device) → d.is_running ≡ true → outer_loop d ≡ inner_loop d
unfolding outer_loop
outer_running d running =
    ap (λ b. if b then inner_loop d else record d { thread = returned }) running

located : (p : Thread) (d : Device) → d.thread ≡ p → hardware_sim d ≡ resume_at p d
unfolding hardware_sim
located p d h = ap (λ p. resume_at p d) h

-- In the inner loop a thread that is not halted goes on, and does not ask whether it should run.
pub run-in_inner :
    (c : Codes) (n k : ℕ) (d : Device)
    → d.thread ≡ in_inner
    → d.is_halt ≡ false
    → k < 26
    → d.buffer ≡ letters k
    → run c (replicate n wakes) d ≡ record d { buffer = letters ((k + n) % 26); thread = in_inner }
unfolding run step
run-in_inner c zero k d inside free small shown =
    λ i. record d { buffer = (shown ∙ ap letters mod_small) i; thread = inside i }
  where
    mod_small : k ≡ (k + 0) % 26
    mod_small = omega arith
run-in_inner c (suc n) k d inside free small shown =
    let e = record d { buffer = letters ((k + 1) % 26); thread = in_inner } in
    let tick : hardware_sim d ≡ e =
      located in_inner d inside ∙ unfold resume_at in inner_free k d free small shown in
    let place : ((k + 1) % 26 + n) % 26 ≡ (k + suc n) % 26 = omega arith in
    ap (run c (replicate n wakes)) tick
    ∙ run-in_inner c n ((k + 1) % 26) e refl free (omega arith) refl
    ∙ ap (λ (p : ℕ). record d { buffer = letters p; thread = in_inner }) place

-- The thread of a device that runs.
abbrev pub Looping : Thread → Type 0
Looping p = (p ≡ in_inner) ⊎ (p ≡ in_outer)

-- A pass of such a thread, wherever it is.
pass : (d : Device) → d.is_running ≡ true → Looping d.thread → hardware_sim d ≡ inner_loop d
pass d running (inl h) = located in_inner d h ∙ unfold resume_at in refl
pass d running (inr h) = located in_outer d h ∙ unfold resume_at in outer_running d running

-- While it is halted it changes nothing but its own place.
run_halted :
    (c : Codes) (m : ℕ) (d : Device)
    → d.is_running ≡ true
    → d.is_halt ≡ true
    → Looping d.thread
    → (p : Thread) × Looping p × (run c (replicate m wakes) d ≡ record d { thread = p })
unfolding run step
run_halted c zero d running halted at = (d.thread, at, refl)
run_halted c (suc m) d running halted at =
    let e = record d { thread = in_outer } in
    let (p, l, h) = run_halted c m e running halted (inr refl) in
    (p, l, ap (run c (replicate m wakes)) (pass d running at ∙ inner_halted d halted) ∙ h)

run_free :
    (c : Codes) (n k : ℕ) (d : Device)
    → d.is_running ≡ true
    → d.is_halt ≡ false
    → Looping d.thread
    → k < 26
    → d.buffer ≡ letters k
    → (run c (replicate n wakes) d).buffer ≡ letters ((k + n) % 26)
unfolding run step
run_free c zero k d running free at small shown =
    let place : k ≡ (k + 0) % 26 = omega arith in shown ∙ ap letters place
run_free c (suc n) k d running free at small shown =
    let e = record d { buffer = letters ((k + 1) % 26); thread = in_inner } in
    let place : ((k + 1) % 26 + n) % 26 ≡ (k + suc n) % 26 = omega arith in
    ap (λ d. (run c (replicate n wakes) d).buffer)
      (pass d running at ∙ inner_free k d free small shown)
    ∙ ap (λ d. d.buffer) (run-in_inner c n ((k + 1) % 26) e refl free (omega arith) refl)
    ∙ ap letters place

run-append :
    (c : Codes) (es fs : List Event) (d : Device) → run c (es ++ fs) d ≡ run c fs (run c es d)
unfolding run
run-append c [] fs d = refl
run-append c (e ∷ es) fs d = run-append c es fs (step c e d)

ioctl_halt :
    (c : Codes) (d : Device)
    → hardware_device_ioctl c c.halt d ≡ (pos 0, record d { is_halt = true })
unfolding hardware_device_ioctl
ioctl_halt c d = rw (==_refl c.halt) refl

ioctl_resume :
    (c : Codes) (d : Device)
    → hardware_device_ioctl c c.resume d ≡ (pos 0, record d { is_halt = false })
unfolding hardware_device_ioctl
ioctl_resume c d = rw (==_of_ne c.resume c.halt (λ e. c.apart (sym e)), ==_refl c.resume) refl

-- On a running device the command to halt keeps the letter for as long as the thread's passes go by, and the
-- command to resume lets it go on from there, a letter further with each pass, from 'z' on to 'a'.
pub run_halt_resume :
    (c : Codes) (m n k : ℕ) (d : Device)
    → d.is_running ≡ true
    → Looping d.thread
    → k < 26
    → d.buffer ≡ letters k
    → ((run c (ioctls c.halt ∷ replicate m wakes) d).buffer ≡ letters k)
      × ((run c
            ((ioctls c.halt ∷ replicate m wakes) ++ ioctls c.resume ∷ replicate n wakes)
            d).buffer
          ≡ letters ((k + n) % 26))
unfolding run
run_halt_resume c m n k d running at small shown =
    let e = record d { is_halt = true } in
    let (p, l, h) = run_halted c m e running refl at in
    let f = record d { is_halt = false; thread = p } in
    let halts : step c (ioctls c.halt) d ≡ e = unfold step in ap (λ r. r.1) (ioctl_halt c d) in
    let resumes : step c (ioctls c.resume) (record e { thread = p }) ≡ f =
      unfold step in ap (λ r. r.1) (ioctl_resume c (record e { thread = p })) in
    let stays : run c (replicate m wakes) (step c (ioctls c.halt) d) ≡ record e { thread = p } =
      ap (run c (replicate m wakes)) halts ∙ h in
    (
      ap (λ d. d.buffer) stays ∙ shown,
      ap (λ d. d.buffer)
            (run-append c (replicate m wakes) (ioctls c.resume ∷ replicate n wakes)
                (step c (ioctls c.halt) d)
              ∙ ap (run c (ioctls c.resume ∷ replicate n wakes)) stays)
          ∙ ap (λ d. (run c (replicate n wakes) d).buffer) resumes
          ∙ run_free c n k f running refl l small shown,
    )

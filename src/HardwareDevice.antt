-- ===== src/HardwareDevice.antt =====
-- Labs/Lab 4/hardwareDevice.c: a character device whose contents a kernel thread keeps changing.
-- The static variables and the thread are one `Device`. The thread runs from one `msleep` to the next;
-- the calls of the module and of its file operations come in between. What the kernel answers, and the
-- command codes of the header, are parameters.
pub mod Letters
pub mod Reach
pub mod Halts
pub mod Unload
pub mod Reads
mod Tests
use dps912_unix.Base.{
  Bool, Bytes, List, Outcome, [], false, fault, if◌then◌else◌, ltb, map, negsuc, not, ok, pos,
  replicate, take, true, wild_pointer, ℤ, ◌%◌, ◌&&◌, ◌++◌, ◌+◌, ◌-◌, ◌==◌, ◌>>=◌, ◌^◌, ◌∷◌, ◌≢◌, ℕ,
}

abbrev pub buf_len : ℕ
buf_len = 16

-- Where `hardwareSim` is: not created, not yet run, in the `msleep` of the inner or of the outer loop,
-- or returned.
pub data Thread : Type 0 where
  absent fresh in_inner in_outer returned : Thread

pub record Device : Type 0 where
  pub major_number : ℕ
  pub registered : Bool
  pub buffer : Bytes
  pub is_running : Bool
  pub is_halt : Bool
  pub thread : Thread

-- The module as it is loaded.
abbrev pub loaded : Device
loaded = record {
  major_number = 0;
  registered = false;
  buffer = replicate buf_len 0;
  is_running = false;
  is_halt = false;
  thread = absent;
}

-- `++buffer[i]; if (buffer[i] > 'z') buffer[i] = 'a';` on a signed char.
unfoldable pub next_letter : ℕ → ℕ
next_letter c = let d = (c + 1) % 2 ^ 8 in if ltb b'z' d && ltb d 128 then b'a' else d

-- The two loops over the buffer, each with the NUL behind it.
unfoldable pub fill : Bytes → Bytes
fill buffer = replicate (buf_len - 1) b'a' ++ 0 ∷ []

unfoldable pub advance : Bytes → Bytes
unfolding next_letter
advance buffer = map next_letter (take (buf_len - 1) buffer) ++ 0 ∷ []

-- From the test `!is_halt` of the inner loop to the next `msleep`.
unfoldable pub inner_loop : Device → Device
unfolding advance
inner_loop d =
    if not d.is_halt
    then record d { buffer = advance d.buffer; thread = in_inner }
    else record d { thread = in_outer }

-- From the test `is_running` of the outer loop.
unfoldable pub outer_loop : Device → Device
unfolding inner_loop
outer_loop d = if d.is_running then inner_loop d else record d { thread = returned }

-- What `hardwareSim` does when it runs.
unfoldable pub resume_at : Thread → Device → Device
unfolding fill outer_loop
resume_at absent d = d
resume_at fresh d = outer_loop (record d { buffer = fill d.buffer })
resume_at in_inner d = inner_loop d
resume_at in_outer d = outer_loop d
resume_at returned d = d

unfoldable pub hardware_sim : Device → Device
unfolding resume_at
hardware_sim d = resume_at d.thread d

-- The result of `kthread_create`: a thread, or an error as a pointer, which is not null.
pub data Created : Type 0 where
  task : Created
  err_ptr : Created

unfoldable pub wake_up : Created → Device → Outcome Device
wake_up task d = ok (record d { thread = fresh })
wake_up err_ptr d = fault wild_pointer

-- `register_device`, with the results of `register_chrdev` and `kthread_create`.
unfoldable pub register_device : ℤ → Created → Device → Outcome (ℤ × Device)
unfolding wake_up
register_device (negsuc n) created d = ok (negsuc n, d)
register_device (pos n) created d =
    wake_up created
      (record d { major_number = n; registered = true; is_running = true; is_halt = false })
    >>= λ e. ok (pos 0, e)

unfoldable pub hardware_device_init : ℤ → Created → Device → Outcome (ℤ × Device)
unfolding register_device
hardware_device_init result created d = register_device result created d

unfoldable pub unregister_device : Device → Device
unregister_device d =
    let e = record d { is_running = false; is_halt = false } in
    if not (e.major_number == 0) then record e { registered = false } else e

unfoldable pub hardware_device_exit : Device → Device
unfolding unregister_device
hardware_device_exit d = unregister_device d

-- `open` and `close` only print.
unfoldable pub hardware_device_open : Device → ℤ × Device
hardware_device_open d = (pos 0, d)

unfoldable pub hardware_device_close : Device → ℤ × Device
hardware_device_close d = (pos 0, d)

-- An address: of the kernel or of the process.
pub data Pointer : Type 0 where
  kernel : ℕ → Pointer
  user : ℕ → Pointer

-- A process's memory, and `copy_to_user(to, from, n)`: how many bytes it did not copy, and the memory
-- afterwards.
abbrev pub Memory : Type 0
Memory = ℕ → ℕ

abbrev pub CopyToUser : Type 0
CopyToUser = Pointer → Pointer → ℕ → Memory → ℕ × Memory

-- `hardware_device_read`, with the address of the static buffer.
unfoldable pub hardware_device_read : CopyToUser → ℕ → ℕ → ℕ → Memory → ℕ × Memory
hardware_device_read copy_to_user buffer buf len memory =
    let (read, memory') = copy_to_user (kernel buffer) (user buf) len memory in (len, memory')

-- The command codes of hardwareDevice.h.
pub record Codes : Type 0 where
  pub halt : ℕ
  pub resume : ℕ
  pub apart : halt ≢ resume

unfoldable pub hardware_device_ioctl : Codes → ℕ → Device → ℤ × Device
hardware_device_ioctl c cmd d =
    if cmd == c.halt
    then (pos 0, record d { is_halt = true })
    else if cmd == c.resume
    then (pos 0, record d { is_halt = false })
    else (pos 0, d)

-- What happens to the device while it is registered.
pub data Event : Type 0 where
  opens : Event
  closes : Event
  ioctls : ℕ → Event
  wakes : Event

unfoldable pub step : Codes → Event → Device → Device
unfolding hardware_device_open hardware_device_close hardware_device_ioctl hardware_sim
step c opens d = (hardware_device_open d).1
step c closes d = (hardware_device_close d).1
step c (ioctls cmd) d = (hardware_device_ioctl c cmd d).1
step c wakes d = hardware_sim d

unfoldable pub run : Codes → List Event → Device → Device
run c [] d = d
run c (e ∷ es) d = run c es (step c e d)

-- The module: in the kernel, or removed, and then only the place of its thread is left, since the kernel
-- frees a module's code and its static variables once `module_exit` has returned.
pub data Module : Type 0 where
  inserted : Device → Module
  removed : Thread → Module

-- What wakes up in a removed module goes on in code that is not there.
unfoldable pub go_on_removed : Thread → Outcome Module
go_on_removed absent = ok (removed absent)
go_on_removed fresh = fault wild_pointer
go_on_removed in_inner = fault wild_pointer
go_on_removed in_outer = fault wild_pointer
go_on_removed returned = ok (removed returned)

-- The kernel answers the calls on a removed device itself.
unfoldable pub after_removal : Event → Thread → Outcome Module
unfolding go_on_removed
after_removal opens p = ok (removed p)
after_removal closes p = ok (removed p)
after_removal (ioctls cmd) p = ok (removed p)
after_removal wakes p = go_on_removed p

pub data ModuleEvent : Type 0 where
  meets : Event → ModuleEvent
  unloads : ModuleEvent

unfoldable pub module_step : Codes → ModuleEvent → Module → Outcome Module
unfolding step hardware_device_exit after_removal
module_step c (meets e) (inserted d) = ok (inserted (step c e d))
module_step c (meets e) (removed p) = after_removal e p
module_step c unloads (inserted d) = ok (removed (hardware_device_exit d).thread)
module_step c unloads (removed p) = ok (removed p)

unfoldable pub module_run : Codes → List ModuleEvent → Module → Outcome Module
module_run c [] m = ok m
module_run c (e ∷ es) m = module_step c e m >>= λ n. module_run c es n

-- ===== src/HardwareDevice/Reads.antt =====
-- Labs/Lab 4/hardwareDevice.c, `hardware_device_read`.
use dps912_unix.Base.{ap, ◌≡◌, ℕ}
use dps912_unix.HardwareDevice.{CopyToUser, Memory, hardware_device_read, kernel, user, Pointer}

-- As the kernel documents it: a destination that is not the process's is refused, and none of the bytes
-- are copied.
abbrev pub RefusesKernel : CopyToUser → Type 0
RefusesKernel copy =
    (to : ℕ) (from : Pointer) (n : ℕ) (memory : Memory)
    → copy (kernel to) from n memory ≡ (n, memory)

-- With a `copy_to_user` that refuses an address of the kernel as its destination, every read reports
-- that it has delivered all bytes that were asked for, and leaves the process's memory as it was.
pub hardware_device_read_lem :
    (copy : CopyToUser) (buffer buf len : ℕ) (memory : Memory)
    → RefusesKernel copy
    → hardware_device_read copy buffer buf len memory ≡ (len, memory)
unfolding hardware_device_read
hardware_device_read_lem copy buffer buf len memory refuses =
    ap (λ p. (len, p.1)) (refuses buffer (user buf) len memory)

-- ===== src/Logger/Race.antt =====
-- Assignments/A2/Logger.cpp: `Log` takes no mutex, and the receive thread clears `buf` before it takes
-- its own. What happens when the clearing falls between the `sprintf` and the `sendto` of a call.
use dps912_unix.Datagrams.{buf_len, cleared}
use dps912_unix.Base.{
  Bytes, [], ap, arith, drop, length, ok, refl, replicate, suc, take, true, zero, ◌++◌, ◌+◌, ◌<◌,
  ◌∷◌, ◌≡◌, ◌≤◌, ℕ,
}
use dps912_unix.Logger.{LogCall, clear_buf, log_print, log_send, Logger}
use dps912_unix.Logger.Filter.{entry, level_str-Passes, log_print_fits, Passes}

take_cleared : (m n v : ℕ) → m ≤ n → take m (replicate n v) ≡ replicate m v
take_cleared zero n v h = refl
take_cleared (suc m) zero v h = absurd (omega arith)
take_cleared (suc m) (suc n) v h = ap (◌∷◌ v) (take_cleared m n v (omega arith))

-- A call whose entry fits and passes the filter, with the receiver's `memset` between its two halves:
-- the datagram has the entry's length and is all NUL, so that nothing of the entry reaches the server.
pub log_race :
    (dt : Bytes) (c : LogCall) (s : Logger)
    → Passes s.level_log c.level
    → length (entry dt c) < buf_len
    → s.fd_open ≡ true
    → (t : Logger) × (len : ℕ) × (log_print dt c s ≡ ok (t, len))
      × ((log_send len (clear_buf t)).sent
          ≡ s.sent ++ (s.server_address, replicate (length (entry dt c) + 1) 0) ∷ [])
unfolding log_send clear_buf
log_race dt c s passes fits fd = (
  record s { buf = entry dt c ++ 0 ∷ drop (length (entry dt c) + 1) cleared },
  length (entry dt c) + 1,
  log_print_fits dt c s _ (level_str-Passes s.level_log c.level passes) fits,
  rw (fd, take_cleared (length (entry dt c) + 1) buf_len 0 (omega arith)) refl,
)

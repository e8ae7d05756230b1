-- ===== src/MonitorPair.antt =====
-- Assignments/A1, intfMonitor.cpp and netMonitor.cpp together: what one sends is what the other reads.
pub mod Turn
pub mod Turns
pub mod Loss
pub mod Parting
mod Tests
use dps912_unix.Base.{
  All, ap, append-nil, append_assoc, blocked, arith, map, string_eq, ◌∙◌, Bytes, List, Outcome, [],
  codes, false, fault, ltb_ℤ, ok, pos, refl, true, ◌++◌, ◌>>=◌, ◌∷◌, ◌≡◌, ℕ,
}
use dps912_unix.Messages.{receive_message, filled, send_message}

-- The stream that a list of messages makes.
pub stream : List Bytes → Bytes
stream [] = []
stream (message ∷ rest) = send_message message ++ stream rest

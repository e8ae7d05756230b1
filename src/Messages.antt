-- ===== src/Messages.antt =====
-- Assignments/A1: `receiveMessage` and `sendMessage`, which intfMonitor.cpp and netMonitor.cpp both
-- define, over a stream socket: the bytes that wait in it, oldest first.
pub mod Streams
mod Tests
use dps912_unix.Base.{
  Bytes, Outcome, [], c_string, drop, length, ok, replicate, take, ◌++◌, ◌>>=◌, ◌∷◌, ℕ,
}

abbrev pub buf_len : ℕ
buf_len = 256

-- `bzero` and `read` handle one byte less than the buffer has.
abbrev pub read_len : ℕ
read_len = 255

-- `write(fd, message.c_str(), message.length() + 1)`.
unfoldable pub send_message : Bytes → Bytes
send_message message = message ++ 0 ∷ []

pub record Received : Type 0 where
  pub message : Bytes
  pub buffer : Bytes
  pub left : Bytes  -- what stays in the stream

-- The buffer after `bzero(buffer, 255)` and `read(fd, buffer, 255)`; a read takes what there is.
unfoldable pub filled : Bytes → Bytes → Bytes
filled stream buffer =
    let chunk = take read_len stream in
    chunk ++ drop (length chunk) (replicate read_len 0 ++ drop read_len buffer)

-- `receiveMessage`, when the read does not wait.
unfoldable pub receive_message : Bytes → Bytes → Outcome Received
receive_message stream buffer = do
  message ← c_string (filled stream buffer)
  ok (record { message = message; buffer = filled stream buffer; left = drop read_len stream })

-- ===== src/Messages/Tests.antt =====
-- Assignments/A1, the messages at concrete inputs.
use dps912_unix.Base.{Bytes, arith, codes, drop, ok, replicate, ◌++◌, ◌≡◌}
use dps912_unix.Messages.{buf_len, filled, read_len, receive_message, send_message}
use dps912_unix.Messages.Streams.{receive_message-send_message}

abbrev stale : Bytes
stale = replicate buf_len 120

receive_message-send_message_example :
    receive_message (send_message (codes "Link Up") ++ codes "Li") stale
    ≡ ok (record {
      message = codes "Link Up";
      buffer = filled (send_message (codes "Link Up") ++ codes "Li") stale;
      left = drop read_len (send_message (codes "Link Up") ++ codes "Li");
    })
receive_message-send_message_example =
    receive_message-send_message (codes "Link Up") (codes "Li") stale (omega arith) (omega arith)

abbrev flood : Bytes
flood = replicate 255 65

-- ===== src/Messages/Streams.antt =====
-- Assignments/A1, `sendMessage` and `receiveMessage`: what one side sends and the other reads.
use dps912_unix.Base.{
  append-nil, ==_of_ne, NulFree-append, c_string_of_NulFree, drop-append, length-take, suc, zero,
  ◌∙◌, Bytes, NulFree, [], append_assoc, arith, c_string, c_string-append, drop, drop_all, fault,
  if◌then◌else◌, length, length-append, ok, out_of_bounds, refl, take, take_past, ◌++◌, ◌+◌, ◌<◌,
  ◌==◌, ◌>>=◌, ◌∷◌, ◌≡◌, ◌≤◌, ℕ,
}
use dps912_unix.Messages.{filled, read_len, receive_message, send_message, Received}

pub length-send_message : (message : Bytes) → length (send_message message) ≡ length message + 1
unfolding send_message
length-send_message message = length-append message (0 ∷ [])

first_text :
    (message rest buffer : Bytes)
    → NulFree message
    → length message < read_len
    → c_string (filled (send_message message ++ rest) buffer) ≡ ok message
unfolding filled send_message
first_text message rest buffer free short =
    rw
      (
        append_assoc message (0 ∷ []) rest,
        take_past read_len message rest 0 short,
        append_assoc message,
      )
      (c_string-append message _ free)

-- A NUL-free message of fewer than 255 bytes is read back whole, whatever the buffer held and whatever
-- follows it in the stream; the read takes 255 bytes of the stream, or all that there are.
pub receive_message-send_message :
    (message rest buffer : Bytes)
    → NulFree message
    → length message < read_len
    → receive_message (send_message message ++ rest) buffer
      ≡ ok (record {
        message = message;
        buffer = filled (send_message message ++ rest) buffer;
        left = drop read_len (send_message message ++ rest);
      })
unfolding receive_message
receive_message-send_message message rest buffer free short =
    rw (first_text message rest buffer free short, ◌>>=◌) refl

pub receive_message-alone :
    (message buffer : Bytes)
    → NulFree message
    → length message < read_len
    → (r : Received) × (receive_message (send_message message) buffer ≡ ok r)
      × (r.message ≡ message)
receive_message-alone message buffer free short =
    (_, rw append-nil at (receive_message-send_message message [] buffer free short), refl)

-- Of two messages that wait together in 255 bytes, the first NUL-free, the first is returned and both
-- are gone.
pub second_message_lost :
    (first second buffer : Bytes)
    → NulFree first
    → length first + length second + 2 ≤ read_len
    → (r : Received) × (receive_message (send_message first ++ send_message second) buffer ≡ ok r)
      × (r.message ≡ first)
      × (r.left ≡ [])
second_message_lost first second buffer free short = (
  _,
  receive_message-send_message first (send_message second) buffer free (omega arith),
  refl,
  drop_all read_len (send_message first ++ send_message second) (
      omega (
        arith,
        length-append (send_message first) (send_message second),
        length-send_message first,
        length-send_message second,
      )),
)

filled_full :
    (stream front : Bytes) (last : ℕ)
    → read_len ≤ length stream
    → length front ≡ read_len
    → filled stream (front ++ last ∷ []) ≡ take read_len stream ++ last ∷ []
unfolding filled
filled_full stream front last long whole = rw (size, old) refl
  where
    size : length (take read_len stream) ≡ read_len
    size = omega (arith, length-take read_len stream)

    old : drop read_len (front ++ last ∷ []) ≡ last ∷ []
    old = rw whole at (drop-append front (last ∷ []))

full_text :
    (text : Bytes) (last : ℕ)
    → NulFree text
    → c_string (text ++ last ∷ []) ≡ (if last == 0 then ok text else fault out_of_bounds)
full_text text zero free = c_string-append text [] free
full_text text (suc last) free =
    c_string_of_NulFree (text ++ suc last ∷ [])
      (NulFree-append text (suc last ∷ []) free (omega arith))
    ∙ ground arith

-- A read of 255 bytes with no NUL among them leaves it to the buffer's last byte, which neither
-- `bzero` nor `read` writes, whether the string ends inside the buffer.
pub full_read :
    (stream front : Bytes) (last : ℕ)
    → read_len ≤ length stream
    → NulFree (take read_len stream)
    → length front ≡ read_len
    → receive_message stream (front ++ last ∷ []) ≡ (
        if last == 0
        then ok (record {
          message = take read_len stream;
          buffer = take read_len stream ++ 0 ∷ [];
          left = drop read_len stream;
        })
        else fault out_of_bounds)
unfolding receive_message
full_read stream front last long free whole =
    rw (filled_full stream front last long whole, full_text (take read_len stream) last free)
      (split last)
  where
    read : Bytes → ℕ → Received
    read message n = record {
      message = message;
      buffer = take read_len stream ++ n ∷ [];
      left = drop read_len stream;
    }

    split :
        (n : ℕ)
        → ((if n == 0 then ok (take read_len stream) else fault out_of_bounds) >>= λ message.
            ok (read message n))
          ≡ (if n == 0 then ok (read (take read_len stream) 0) else fault out_of_bounds)
    split zero = refl
    split (suc n) = rw (==_of_ne (suc n) 0 (λ e. absurd (omega arith)))

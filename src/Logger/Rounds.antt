-- ===== src/Logger/Rounds.antt =====
-- Assignments/A2/Logger.cpp, one round of `receiveThread`.
use dps912_unix.Datagrams.{
  Arrival, Carries, Carries-cases, buf_len, c_string-recv_into, c_string-recv_into_full, cleared,
  datagram, recv_into, recv_sender, recv_size, terminated, unterminated, Address,
}
use dps912_unix.Base.{
  Bytes, NulFree, [], ap, arith, false, fault, inl, inr, length, length-take, ltb_of_le, ltb_of_lt,
  npos, ok, out_of_bounds, pos, refl, take, true, ◌+◌, ◌<◌, ◌>>=◌, ◌∷◌, ◌≡◌, ◌≤◌, ◌⊎◌,
}
use dps912_unix.Logger.{
  apply_level, clear_buf, level_of_stat, read_command, receive_round, recv_from, stat_of, Logger,
}
use dps912_unix.Logger.Commands.{stat_of_total}

-- What the globals hold after `memset`, `lock` and the datagram.
abbrev pub heard : Address → Bytes → Logger → Logger
heard from payload s = record s {
  buf = recv_into (datagram from payload) cleared;
  server_address = from;
  locked = true;
}

-- `memset`, `lock` and `recvfrom` on a datagram.
recv_from_datagram :
    (from : Address) (payload : Bytes) (s : Logger)
    → recv_from (datagram from payload) (record (clear_buf s) { locked = true })
      ≡ (heard from payload s, pos (length (take buf_len payload)))
unfolding recv_from recv_sender recv_size clear_buf
recv_from_datagram from payload s = refl

receive_round_unlocked :
    (a : Arrival) (s : Logger)
    → s.locked ≡ false
    → receive_round a s ≡ read_command a (record (clear_buf s) { locked = true })
unfolding receive_round clear_buf
receive_round_unlocked a s unlocked = ground arith

-- A round that gets a text, in a datagram that is not empty.
pub receive_round_text :
    (from : Address) (payload text : Bytes) (s : Logger)
    → Carries payload text
    → 0 < length payload
    → s.locked ≡ false
    → (stat : Bytes) → stat_of text ≡ ok stat
    → receive_round (datagram from payload) s
      ≡ ok (apply_level (level_of_stat stat) (heard from payload s))
unfolding read_command
receive_round_text from payload text s carries some_bytes unlocked stat e =
    rw (receive_round_unlocked _ s unlocked, recv_from_datagram from payload s)
      (rw (c_string-recv_into from payload text carries, ◌>>=◌)
        (rw
          (ltb_of_lt 0 (length (take buf_len payload) + 0)
            (omega (arith, length-take buf_len payload)))
          (rw (e, ◌>>=◌) refl)))

receive_round_overread :
    (from : Address) (payload : Bytes) (s : Logger)
    → s.locked ≡ false
    → buf_len ≤ length payload
    → NulFree (take buf_len payload)
    → receive_round (datagram from payload) s ≡ fault out_of_bounds
unfolding read_command
receive_round_overread from payload s unlocked long free =
    rw (receive_round_unlocked _ s unlocked, recv_from_datagram from payload s)
      (rw (c_string-recv_into_full from payload long free, ◌>>=◌) refl)

Empty_cases : (payload : Bytes) → (payload ≡ []) ⊎ (0 < length payload)
Empty_cases [] = inl refl
Empty_cases (c ∷ payload) = inr (omega arith)

Carries-short : {payload text : Bytes} → Carries payload text → length text < npos
Carries-short (terminated payload text rest e free short) = omega arith
Carries-short (unterminated payload text e free short) = omega arith

receive_round_empty :
    (from : Address) (payload text : Bytes) (s : Logger)
    → s.locked ≡ false
    → Carries payload text
    → payload ≡ []
    → receive_round (datagram from payload) s
      ≡ ok (record (heard from payload s) { locked = false })
unfolding read_command
receive_round_empty from payload text s unlocked carries e =
    rw (receive_round_unlocked _ s unlocked, recv_from_datagram from payload s)
      (rw (c_string-recv_into from payload text carries, ◌>>=◌)
        (rw
          (ltb_of_le 0 (length (take buf_len payload) + 0)
            (omega (arith, length-take buf_len payload, ap length e)))
          refl))

receive_round_total :
    (from : Address) (payload text : Bytes) (s : Logger)
    → s.locked ≡ false
    → Carries payload text
    → (t : Logger) × (receive_round (datagram from payload) s ≡ ok t)
receive_round_total from payload text s unlocked carries = elim (Empty_cases payload) [
  | inl e ↦ (
    record (heard from payload s) { locked = false },
    receive_round_empty from payload text s unlocked carries e,
  )
  | inr h ↦
      let (stat, e) = stat_of_total text (Carries-short carries) in
      (
        apply_level (level_of_stat stat) (heard from payload s),
        receive_round_text from payload text s carries h unlocked stat e,
      )
]

-- A round of a receiver that does not hold the mutex faults on exactly the datagrams with 256 or more
-- bytes and no NUL in the first 256: there the string leaves the buffer. All others it goes through.
pub receive_round_faults :
    (from : Address) (payload : Bytes) (s : Logger)
    → s.locked ≡ false
    → ((buf_len ≤ length payload)
        × NulFree (take buf_len payload)
        × (receive_round (datagram from payload) s ≡ fault out_of_bounds))
      ⊎ ((text : Bytes) × (t : Logger) × Carries payload text
          × (receive_round (datagram from payload) s ≡ ok t))
receive_round_faults from payload s unlocked = elim (Carries-cases payload) [
  | inr (long, free) ↦ inl (long, free, receive_round_overread from payload s unlocked long free)
  | inl (text, carries) ↦
      let (t, e) = receive_round_total from payload text s unlocked carries in
      inr (text, t, carries, e)
]

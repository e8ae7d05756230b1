-- ===== src/Logger/Filter.antt =====
-- Assignments/A2/Logger.cpp, `Log`: what passes the filter, and what is sent.
use dps912_unix.Datagrams.{cleared, buf_len}
use dps912_unix.Base.{
  Bool-cases, dec_lt, inl, inr, ltb, ltb_of_le, ltb_of_lt, set_terminator, store_overflow,
  store_text, take_terminated, ◌+◌, ◌≤◌, ◌<◌, ◌≡◌, refl, ap, true, [], ◌∷◌, ◌++◌, arith, ltb_ℤ,
  if◌then◌else◌, length, drop, Bytes, codes, ok, fault, buffer_overflow, ◌>>=◌,
}
use dps912_unix.Logger.{
  LogCall, LogLevel, critical, debug, error, level_str, log, log_print, log_send, log_text, value,
  warning, Logger,
}

-- The level's own name, and the level before it in the enumeration.
unfoldable pub name : LogLevel → Bytes
name debug = codes "DEBUG"
name warning = codes "WARNING"
name error = codes "ERROR"
name critical = codes "CRITICAL"

unfoldable pub below : LogLevel → LogLevel
below critical = error
below error = warning
below _ = debug

-- `level > level_log`.
abbrev pub Passes : LogLevel → LogLevel → Type 0
Passes filter level = ltb_ℤ (value filter) (value level) ≡ true

-- The text that `Log` prints for a call.
abbrev pub entry : Bytes → LogCall → Bytes
entry dt c = log_text dt (name (below c.level)) c

pub level_str-Passes :
    (filter level : LogLevel)
    → Passes filter level
    → level_str (value level) ≡ ok (name (below level))
unfolding value level_str name below
level_str-Passes filter debug h = ground arith
level_str-Passes filter warning h = refl
level_str-Passes filter error h = refl
level_str-Passes filter critical h = refl

-- The state after a call whose text is sent, with NUL.
abbrev pub sends : Bytes → Logger → Logger
sends text s = record s {
  buf = text ++ 0 ∷ drop (length text + 1) cleared;
  sent = if s.fd_open then s.sent ++ (s.server_address, text ++ 0 ∷ []) ∷ [] else s.sent;
}

pub log_print_fits :
    (dt : Bytes) (c : LogCall) (s : Logger) (label : Bytes)
    → level_str (value c.level) ≡ ok label
    → length (log_text dt label c) < buf_len
    → log_print dt c s
      ≡ ok (
        record s {
          buf = log_text dt label c ++ 0 ∷ drop (length (log_text dt label c) + 1) cleared;
        },
        length (log_text dt label c) + 1,
      )
unfolding log_print
log_print_fits dt c s label h fits =
    rw (h, log_print)
      (rw (store_text cleared (log_text dt label c) fits, ◌>>=◌)
        (rw (set_terminator (log_text dt label c) (drop (length (log_text dt label c) + 1) cleared))
          refl))

log_print_overflow :
    (dt : Bytes) (c : LogCall) (s : Logger) (label : Bytes)
    → level_str (value c.level) ≡ ok label
    → buf_len ≤ length (log_text dt label c)
    → log_print dt c s ≡ fault buffer_overflow
unfolding log_print
log_print_overflow dt c s label h long =
    rw (h, log_print) (rw (store_overflow cleared (log_text dt label c) long, ◌>>=◌) refl)

log_send_text :
    (text rest : Bytes) (s : Logger)
    → log_send (length text + 1) (record s { buf = text ++ 0 ∷ rest }) ≡ record s {
      buf = text ++ 0 ∷ rest;
      sent = if s.fd_open then s.sent ++ (s.server_address, text ++ 0 ∷ []) ∷ [] else s.sent;
    }
unfolding log_send
log_send_text text rest s = rw (take_terminated text rest) (ground arith)

pub log-Passes :
    (dt : Bytes) (c : LogCall) (s : Logger)
    → Passes s.level_log c.level
    → length (entry dt c) < buf_len
    → log dt c s ≡ ok (sends (entry dt c) s)
unfolding log
log-Passes dt c s h fits = rw h (
    rw (log_print_fits dt c s _ (level_str-Passes s.level_log c.level h) fits, ◌>>=◌)
      (ap ok (log_send_text (entry dt c) _ s)))

-- `Log` on every branch. A level that is not above the filter leaves everything as it was. One
-- that is above sends the entry once, NUL included, if the entry has fewer than 256 bytes (and prints
-- it into the buffer alone if the descriptor is closed); a longer entry overflows the buffer. The label
-- in the entry is the name of the level one below that of the call.
pub log_lem :
    (dt : Bytes) (c : LogCall) (s : Logger)
    → log dt c s ≡ (
        if ltb_ℤ (value s.level_log) (value c.level)
        then (if ltb (length (entry dt c)) buf_len
            then ok (sends (entry dt c) s)
            else fault buffer_overflow)
        else ok s)
unfolding log
log_lem dt c s = elim (Bool-cases (ltb_ℤ (value s.level_log) (value c.level))) [
  | inr h ↦ rw h refl
  | inl h ↦ elim (dec_lt (length (entry dt c)) buf_len) [
    | yes fits ↦
        rw (h, ltb_of_lt (length (entry dt c)) buf_len fits) (rw h at (log-Passes dt c s h fits))
    | no long ↦
        rw (h, ltb_of_le (length (entry dt c)) buf_len (omega arith))
          (rw
            (
              log_print_overflow dt c s _ (level_str-Passes s.level_log c.level h) (omega arith),
              ◌>>=◌,
            )
            refl)
  ]
]

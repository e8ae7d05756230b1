-- ===== src/StatLogger/Passes.antt =====
-- Labs/Lab 5/intfMonitor_solution.cpp, the buffers of a pass.
use dps912_unix.Base.{
  [], ap, decimal, if◌then◌else◌, true, ◌∙◌, ◌∷◌, Bytes, NulFree, arith, buffer_overflow, c_string,
  c_string-append, codes, fault, length, length-append, none, ok, pos, refl, replicate, some,
  store_overflow, store_text, take, take_past, ℤ, ◌++◌, ◌+◌, ◌<◌, ◌>>=◌, ◌≡◌, ◌≤◌, length-decimal,
  IsInt,
}
use dps912_unix.StatLogger.{
  gather, write_line, Counters, log_line, max_buf, read_counter, stat_path, Logger,
}

-- The counter of a path as the program takes it.
unfoldable pub counter_at : Counters → Bytes → Bytes → ℤ
counter_at files name counter = elim (files (stat_path name counter)) [
  | none ↦ pos 0
  | some value ↦ value
]

-- Files whose numbers fit an `int`.
unfoldable pub HasInts : Counters → Bytes → Type 0
HasInts files name = (counter : Bytes) → IsInt (counter_at files name counter)

-- The line for what the files hold.
pub line_of : Counters → Bytes → Bytes
line_of files name =
    log_line name (counter_at files name (codes "tx_bytes"))
      (counter_at files name (codes "rx_bytes")) (counter_at files name (codes "tx_packets"))
      (counter_at files name (codes "rx_packets"))

interface_name :
    (name : Bytes)
    → NulFree name
    → length name < max_buf
    → c_string (take max_buf (name ++ replicate max_buf 0)) ≡ ok name
interface_name name free short =
    rw (take_past max_buf name (replicate 127 0) 0 short) (c_string-append name _ free)

length-stat_path :
    (name counter : Bytes) → length (stat_path name counter) ≡ 27 + (length name + length counter)
unfolding stat_path
length-stat_path name counter = omega (arith, length-append name (codes "/statistics/" ++ counter))

read_counter_fits :
    (files : Counters) (name counter : Bytes)
    → length name < 16
    → length counter ≤ 10
    → read_counter files name counter ≡ ok (counter_at files name counter)
unfolding read_counter counter_at
read_counter_fits files name counter short few =
    rw
      (
        store_text (replicate max_buf 0) (stat_path name counter)
            (omega (arith, length-stat_path name counter)),
        ◌>>=◌,
      )
      refl

read_counter_overflows :
    (files : Counters) (name counter : Bytes)
    → max_buf ≤ 27 + (length name + length counter)
    → read_counter files name counter ≡ fault buffer_overflow
unfolding read_counter
read_counter_overflows files name counter long =
    rw
      (
        store_overflow (replicate max_buf 0) (stat_path name counter)
            (omega (arith, length-stat_path name counter)),
        ◌>>=◌,
      )
      refl

length-log_line :
    (name : Bytes) (a b c d : ℤ)
    → IsInt a
    → IsInt b
    → IsInt c
    → IsInt d
    → length (log_line name a b c d) ≤ length name + 91
unfolding log_line
length-log_line name a b c d ha hb hc hd =
    let t4 = codes " rx_packets: " ++ (decimal d ++ 10 ∷ []) in
    let t3 = codes " tx_packets:" ++ (decimal c ++ t4) in
    let t2 = codes " rx_bytes:" ++ (decimal b ++ t3) in
    let t1 = codes ": tx_bytes:" ++ (decimal a ++ t2) in
    omega (
      arith,
      length-append name t1,
      length-append (decimal a) t2,
      length-append (decimal b) t3,
      length-append (decimal c) t4,
      length-append (decimal d) (10 ∷ []),
      length-decimal a ha,
      length-decimal b hb,
      length-decimal c hc,
      length-decimal d hd,
    )

-- A pass on an interface whose name has the kernel's length, fewer than 16 characters, and whose counters
-- are read as `int`s, overflows neither buffer and appends one line with the four counters to an open
-- log; nothing else changes.
pub gather_fits :
    (files : Counters) (name : Bytes) (s : Logger)
    → NulFree name
    → length name < 16
    → s.interface ≡ take max_buf (name ++ replicate max_buf 0)
    → s.log_open ≡ true
    → HasInts files name
    → gather files s ≡ ok (record s { log = s.log ++ line_of files name ∷ [] })
unfolding gather write_line line_of HasInts
gather_fits files name s free short array opened ints =
    let text = line_of files name in
    let fits : length text < max_buf =
      unfold line_of in
      omega (
        arith,
        length-log_line name (counter_at files name (codes "tx_bytes"))
            (counter_at files name (codes "rx_bytes")) (counter_at files name (codes "tx_packets"))
            (counter_at files name (codes "rx_packets")) (ints (codes "tx_bytes"))
            (ints (codes "rx_bytes")) (ints (codes "tx_packets")) (ints (codes "rx_packets")),
      ) in
    rw (ap c_string array ∙ interface_name name free (omega arith), ◌>>=◌)
      (rw
        (
          read_counter_fits files name (codes "tx_bytes") short (omega arith),
          read_counter_fits files name (codes "rx_bytes") short (omega arith),
          read_counter_fits files name (codes "tx_packets") short (omega arith),
          read_counter_fits files name (codes "rx_packets") short (omega arith),
          ◌>>=◌,
        )
        (rw (store_text (replicate max_buf 0) text fits, ◌>>=◌)
          (ap (λ b. ok (if b then record s { log = s.log ++ text ∷ [] } else s)) opened)))

-- A longer name, of 93 to 127 characters, overflows the buffer of the path in the first pass.
pub gather_overflows :
    (files : Counters) (name : Bytes) (s : Logger)
    → NulFree name
    → 93 ≤ length name
    → length name < max_buf
    → s.interface ≡ take max_buf (name ++ replicate max_buf 0)
    → gather files s ≡ fault buffer_overflow
unfolding gather
gather_overflows files name s free long short array =
    rw (ap c_string array ∙ interface_name name free short, ◌>>=◌)
      (rw (read_counter_overflows files name (codes "tx_bytes") (omega arith), ◌>>=◌) refl)

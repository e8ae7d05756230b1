-- ===== src/Datagrams.antt =====
-- The UDP datagrams between Assignments/A2/Logger.cpp and Assignments/A2/LogServer.cpp: addresses, and
-- what `recvfrom` does to the 256-byte buffer that each program clears first.
use dps912_unix.Base.{
  take_past, [], c_string_cases, dec_lt, inl, inr, length-append, sym, take-append-drop, ◌∙◌, Bytes,
  NulFree, ap, append-nil, append_assoc, arith, c_string, c_string-append, c_string_of_NulFree,
  codes, drop, drop_all, fault, length, length-take, negsuc, ok, out_of_bounds, pos, refl,
  replicate, suc, take, take_all, zero, ℤ, ◌++◌, ◌-◌, ◌<◌, ◌∷◌, ◌≡◌, ◌≤◌, ◌⊎◌, ℕ,
}

pub record Address : Type 0 where
  pub ip : Bytes
  pub port : ℕ

-- `ip_address` and `port` of both programs.
abbrev pub server : Address
server = record { ip = codes "127.0.0.1"; port = 1152 }

abbrev pub buf_len : ℕ
buf_len = 256

-- `memset(buf, 0, BUF_LEN)`.
abbrev pub cleared : Bytes
cleared = replicate buf_len 0

-- What `recvfrom` meets: its timeout or an error, or a datagram.
pub data Arrival : Type 0 where
  nothing : Arrival
  datagram : Address → Bytes → Arrival

-- The buffer afterwards: a longer datagram is cut off.
unfoldable pub recv_into : Arrival → Bytes → Bytes
recv_into nothing array = array
recv_into (datagram from payload) array =
    let received = take buf_len payload in received ++ drop (length received) array

-- The result: -1 for none.
unfoldable pub recv_size : Arrival → ℤ
recv_size nothing = negsuc 0
recv_size (datagram from payload) = pos (length (take buf_len payload))

-- The address argument afterwards.
unfoldable pub recv_sender : Arrival → Address → Address
recv_sender nothing old = old
recv_sender (datagram from payload) old = from

-- The text that a datagram brings to a cleared buffer: up to its NUL, or whole if it has none.
pub data Carries : Bytes → Bytes → Type 0 where
  terminated :
      (payload text rest : Bytes)
      → payload ≡ text ++ 0 ∷ rest
      → NulFree text
      → length text < buf_len
      → Carries payload text
  unterminated :
      (payload text : Bytes)
      → payload ≡ text
      → NulFree text
      → length text < buf_len
      → Carries payload text

pub c_string-recv_into :
    (from : Address) (payload text : Bytes)
    → Carries payload text
    → c_string (recv_into (datagram from payload) cleared) ≡ ok text
unfolding recv_into
c_string-recv_into from payload text (terminated _ _ rest e free short) =
    rw (e, take_past buf_len text rest 0 short, append_assoc text) (c_string-append text _ free)
c_string-recv_into from payload text (unterminated _ _ e free short) =
    rw (e, take_all buf_len text (omega arith))
      (rw (drop_replicate (length text) buf_len 0 short) (c_string-append text _ free))
  where
    drop_replicate : (m n v : ℕ) → m < n → drop m (replicate n v) ≡ v ∷ replicate (n - m - 1) v
    drop_replicate zero zero v h = absurd (omega arith)
    drop_replicate zero (suc n) v h = let e : suc n - 0 - 1 ≡ n = omega arith in rw e refl
    drop_replicate (suc m) zero v h = absurd (omega arith)
    drop_replicate (suc m) (suc n) v h =
        let e : suc n - suc m - 1 ≡ n - m - 1 = omega arith in
        rw e (drop_replicate m n v (omega arith))

-- With 256 bytes and no NUL among them the string leaves the buffer.
pub c_string-recv_into_full :
    (from : Address) (payload : Bytes)
    → buf_len ≤ length payload
    → NulFree (take buf_len payload)
    → c_string (recv_into (datagram from payload) cleared) ≡ fault out_of_bounds
unfolding recv_into
c_string-recv_into_full from payload long free = rw full (c_string_of_NulFree _ free)
  where
    full :
        take buf_len payload ++ drop (length (take buf_len payload)) cleared ≡ take buf_len payload
    full =
        rw
          (drop_all (length (take buf_len payload)) cleared
            (omega (arith, length-take buf_len payload)))
          (append-nil _)

-- Only a datagram that holds no NUL in its first 256 bytes, and has as many, carries no text.
pub Carries-cases :
    (payload : Bytes)
    → ((text : Bytes) × Carries payload text)
      ⊎ ((buf_len ≤ length payload) × NulFree (take buf_len payload))
Carries-cases payload = elim (c_string_cases (take buf_len payload)) [
  | inl free ↦ elim (dec_lt (length payload) buf_len) [
    | yes short ↦ inl (payload, unterminated payload payload refl (whole free short) short)
    | no long ↦ inr (omega arith, free)
  ]
  | inr (text, rest, e, free) ↦ inl (
    text,
    terminated payload text (rest ++ drop buf_len payload) (split text rest e) free
        (fits text rest e),
  )
]
  where
    whole : NulFree (take buf_len payload) → length payload < buf_len → NulFree payload
    whole free short = rw (take_all buf_len payload (omega arith)) at free

    split :
        (text rest : Bytes)
        → take buf_len payload ≡ text ++ 0 ∷ rest
        → payload ≡ text ++ 0 ∷ (rest ++ drop buf_len payload)
    split text rest e =
        sym (take-append-drop buf_len payload)
        ∙ ap (λ t. t ++ drop buf_len payload) e
        ∙ append_assoc text (0 ∷ rest) _

    fits : (text rest : Bytes) → take buf_len payload ≡ text ++ 0 ∷ rest → length text < buf_len
    fits text rest e =
        omega (arith, ap length e, length-take buf_len payload, length-append text (0 ∷ rest))

pub Carries-empty :
    {payload text : Bytes} → Carries payload text → length (take buf_len payload) ≡ 0 → text ≡ []
Carries-empty (terminated payload text rest e free short) h =
    absurd (omega (arith, length-take buf_len payload, ap length e, length-append text (0 ∷ rest)))
Carries-empty (unterminated payload [] e free short) h = refl
Carries-empty (unterminated payload (c ∷ text) e free short) h =
    absurd (omega (arith, length-take buf_len payload, ap length e))

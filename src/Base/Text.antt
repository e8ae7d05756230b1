-- ===== src/Base/Text.antt =====
-- Text as bytes: C strings in arrays, and the `std::string` operations that the programs call.
use Prim.Native.Nat.{ℕ, zero, suc, ◌+◌, ◌-◌, ◌/◌, ◌%◌, ◌^◌, ◌≤◌, ◌<◌, compare, Ordering}
use Prim.Native.Char.{code}
use Prim.Native.String.{String}
use mathlib.Core.Path.{◌≡◌, refl, ap}
use mathlib.Core.Logic.{inr, inl, ◌⊎◌, ◌≢◌}
use mathlib.Core.Bool.{Bool, true, false, ◌&&◌}
use mathlib.Core.List.{append_assoc, List, [], ◌∷◌, ◌++◌}
use native.Mathlib.Omega.{arith}
use dps912_unix.Base.Tests.{leb_of_le, leb_of_lt, ==_refl, ◌==◌, ltb, leb, if◌then◌else◌, ==_of_ne}
use dps912_unix.Base.Lists.{
  set, take, set-append, take-append, length, drop, All, length-append, length-drop,
}
use dps912_unix.Base.Integers.{ℤ, pos, negsuc}
use dps912_unix.Base.Faults.{
  Outcome, ok, fault, out_of_bounds, out_of_range, buffer_overflow, ◌>>=◌,
}

abbrev pub Bytes : Type 0
Bytes = List ℕ

-- The bytes of an ASCII literal.
abbrev pub codes : String → Bytes
codes String.[] = []
codes (String.◌∷◌ c s) = code c ∷ codes s

-- `string s = array`: the bytes before the first NUL; with no NUL the read leaves the array.
unfoldable pub c_string : Bytes → Outcome Bytes
c_string [] = fault out_of_bounds
c_string (c ∷ cs) =
    let rest : Outcome Bytes = c_string cs >>= λ s. ok (c ∷ s) in if c == 0 then ok [] else rest

-- A copy of `source` to the start of `array`, which a longer source overflows.
unfoldable pub store : Bytes → Bytes → Outcome Bytes
store array source =
    if leb (length source) (length array)
    then ok (source ++ drop (length source) array)
    else fault buffer_overflow

-- `std::string::operator>=`: bytes in lexicographic order.
unfoldable pub string_ge : Bytes → Bytes → Bool
string_ge s [] = true
string_ge [] (d ∷ t) = false
string_ge (c ∷ s) (d ∷ t) = elim (compare c d) [
  | Ordering.lt ↦ false
  | Ordering.gt ↦ true
  | Ordering.eq ↦ string_ge s t
]

-- `==` of two strings, which is also `strcmp(s, t) == 0` on NUL-free ones.
unfoldable pub string_eq : Bytes → Bytes → Bool
string_eq [] [] = true
string_eq [] (d ∷ t) = false
string_eq (c ∷ s) [] = false
string_eq (c ∷ s) (d ∷ t) = c == d && string_eq s t

-- `std::string::npos`, the largest `size_t`.
abbrev pub npos : ℕ
npos = 2 ^ 64 - 1

-- `s.find(c)`.
unfoldable pub find : ℕ → Bytes → ℕ
find c [] = npos
find c (d ∷ s) =
    let rest = find c s in if d == c then 0 else if rest == npos then npos else suc rest

-- `s.substr(start)`, which throws past the end.
unfoldable pub substr : Bytes → ℕ → Outcome Bytes
substr s start = if leb start (length s) then ok (drop start s) else fault out_of_range

-- What `%d` prints. A number has no more digits than its value plus one.
unfoldable pub digits_onto : ℕ → ℕ → Bytes → Bytes
digits_onto zero n tail = tail
digits_onto (suc fuel) n tail =
    let rest = digits_onto fuel (n / 10) ((48 + n % 10) ∷ tail) in
    if ltb n 10 then (48 + n) ∷ tail else rest

unfoldable pub decimal : ℤ → Bytes
unfolding digits_onto
decimal (pos n) = digits_onto (suc n) n []
decimal (negsuc n) = b'-' ∷ digits_onto (suc (suc n)) (suc n) []

abbrev pub NulFree : Bytes → Type 0
NulFree = All λ c. c ≢ 0

pub NulFree-append : (s t : Bytes) → NulFree s → NulFree t → NulFree (s ++ t)
NulFree-append [] t hs ht = ht
NulFree-append (c ∷ s) t hs ht = (hs.0, NulFree-append s t hs.1 ht)

-- A NUL-free text in front of a NUL is read back whole.
pub c_string-append : (s rest : Bytes) → NulFree s → c_string (s ++ 0 ∷ rest) ≡ ok s
unfolding c_string
c_string-append [] rest h = refl
c_string-append (c ∷ s) rest h = rw (==_of_ne c 0 h.0, c_string-append s rest h.1)

pub c_string-NulFree : (array : Bytes) {s : Bytes} → c_string array ≡ ok s → NulFree s
unfolding c_string
c_string-NulFree [] h = cc
c_string-NulFree (c ∷ cs) {s} h = split (c_string cs) (λ t e. c_string-NulFree cs e) h
  where
    split :
        (o : Outcome Bytes)
        → ((t : Bytes) → o ≡ ok t → NulFree t)
        → (let rest : Outcome Bytes = o >>= λ t. ok (c ∷ t) in if c == 0 then ok [] else rest)
          ≡ ok s
        → NulFree s
    split (ok t) ih e = ground (arith, ih t refl)
    split (fault f) ih e = ground arith

pub length-store :
    (array source : Bytes) {array' : Bytes}
    → store array source ≡ ok array'
    → length array' ≡ length array
unfolding store
length-store array source h =
    ground
      (arith, length-append source (drop (length source) array), length-drop (length source) array)

digits_onto-NulFree : (fuel n : ℕ) (tail : Bytes) → NulFree tail → NulFree (digits_onto fuel n tail)
unfolding digits_onto
digits_onto-NulFree zero n tail h = h
digits_onto-NulFree (suc fuel) n tail h =
    ground (arith, digits_onto-NulFree fuel (n / 10) ((48 + n % 10) ∷ tail))

pub decimal-NulFree : (n : ℤ) → NulFree (decimal n)
unfolding decimal
decimal-NulFree (pos n) = digits_onto-NulFree (suc n) n [] tt
decimal-NulFree (negsuc n) =
    ((λ e. absurd (omega arith)), digits_onto-NulFree (suc (suc n)) (suc n) [] tt)

pub string_ge_trans :
    (s t u : Bytes) → string_ge s t ≡ true → string_ge t u ≡ true → string_ge s u ≡ true
unfolding string_ge
string_ge_trans s t [] h k = refl
string_ge_trans [] [] (e ∷ u) h k = k
string_ge_trans [] (d ∷ t) (e ∷ u) h k = h
string_ge_trans (c ∷ s) [] (e ∷ u) h k = cc
string_ge_trans (c ∷ s) (d ∷ t) (e ∷ u) h k = ground (arith, string_ge_trans s t u)

pub c_string_of_NulFree : (array : Bytes) → NulFree array → c_string array ≡ fault out_of_bounds
unfolding c_string
c_string_of_NulFree [] h = refl
c_string_of_NulFree (c ∷ cs) h = rw (==_of_ne c 0 h.0, c_string_of_NulFree cs h.1)

-- An array holds a NUL, and the text before it is read, or it holds none.
pub c_string_cases :
    (array : Bytes)
    → NulFree array ⊎ ((s : Bytes) × (rest : Bytes) × (array ≡ s ++ 0 ∷ rest) × NulFree s)
c_string_cases [] = inl tt
c_string_cases (zero ∷ cs) = inr ([], cs, refl, tt)
c_string_cases (suc c ∷ cs) = elim (c_string_cases cs) [
  | inl h ↦ inl ((λ e. absurd (omega arith)), h)
  | inr (s, rest, e, h) ↦
      inr (suc c ∷ s, rest, ap (◌∷◌ (suc c)) e, ((λ e. absurd (omega arith)), h))
]

-- Before the separator `find` sees no hit; what stands behind it does not matter.
pub find-append :
    (c : ℕ) (s rest : Bytes)
    → All (λ d. d ≢ c) s
    → length s < npos
    → find c (s ++ c ∷ rest) ≡ length s
unfolding find
find-append c [] rest h k = rw (==_refl c)
find-append c (d ∷ s) rest h k = rw (
  ==_of_ne d c h.0,
  find-append c s rest h.1 (omega arith),
  ==_of_ne (length s) npos (λ e. absurd (omega arith)),
)

pub find_missing : (c : ℕ) (s : Bytes) → All (λ d. d ≢ c) s → find c s ≡ npos
unfolding find
find_missing c [] h = refl
find_missing c (d ∷ s) h = rw (==_of_ne d c h.0, find_missing c s h.1)

-- A position that `find` returns lies inside, or is `npos`.
pub find_bound : (c : ℕ) (s : Bytes) → (find c s ≡ npos) ⊎ (find c s < length s)
unfolding find
find_bound c [] = inl refl
find_bound c (d ∷ s) = ground (arith, find_bound c s)

-- A text and its NUL, stored at the start of an array that has the room, or has not.
pub store_text :
    (array text : Bytes)
    → length text < length array
    → store array (text ++ 0 ∷ []) ≡ ok (text ++ 0 ∷ drop (length text + 1) array)
unfolding store
store_text array text h =
    rw (length-append text (0 ∷ []), leb_of_le (length text + 1) (length array) (omega arith))
      (ap ok (append_assoc text (0 ∷ []) _))

pub store_overflow :
    (array text : Bytes)
    → length array ≤ length text
    → store array (text ++ 0 ∷ []) ≡ fault buffer_overflow
unfolding store
store_overflow array text h =
    rw (length-append text (0 ∷ []), leb_of_lt (length text + 1) (length array) (omega arith))

-- The terminator is written over the NUL of `sprintf`.
pub set_terminator :
    (text rest : Bytes) → set (text ++ 0 ∷ rest) (length text + 1 - 1) 0 ≡ text ++ 0 ∷ rest
set_terminator text rest =
    let e : length text + 1 - 1 ≡ length text = omega arith in rw e (set-append text rest 0 0)

pub take_terminated :
    (text rest : Bytes) → take (length text + 1) (text ++ 0 ∷ rest) ≡ text ++ 0 ∷ []
take_terminated text rest =
    rw (← length-append text (0 ∷ []), ← append_assoc text (0 ∷ []) rest)
      (take-append (text ++ 0 ∷ []) rest)

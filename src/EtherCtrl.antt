-- ===== src/EtherCtrl.antt =====
-- Labs/Lab 3/etherCtrl.cpp: a menu that shows the addresses of a network interface.
-- `cin` is its bytes and its failbit, as `operator>>` treats them up to C++17. `ioctl` answers as its manual
-- page says: -1 with an `errno`, or 0 with the union of the `ifreq` filled in.
-- The lines of the menu and the prompt for a key are left out of what is printed.
pub mod Mac
pub mod Stale
pub mod Menu
pub mod Script
pub mod Names
mod Tests
use Prim.Native.Nat.{◌/◌}
use dps912_unix.Base.{
  is_zero, after_digits, digits_of, is_space, negative, number, skip_white, ◌%◌, Bool, Bytes, List,
  Option, Outcome, [], codes, decimal, false, fault, if◌then◌else◌, length, leb, ltb, none, ok,
  some, suc, true, uninitialised, zero, ℤ, pos, negsuc, ◌&&◌, ◌*◌, ◌++◌, ◌+◌, ◌-◌, ◌==◌, ◌>>=◌,
  ◌||◌, ◌∷◌, ℕ, ltb_ℤ, buffer_overflow, not,
}

abbrev pub name_size : ℕ
name_size = 16

-- `struct sockaddr`, as the union of the `ifreq` holds it: `sa_data` by its bytes. Each of the three
-- addresses is read behind the two bytes of a port.
pub record Sockaddr : Type 0 where
  pub sa_family : ℕ
  pub a : ℕ
  pub b : ℕ
  pub c : ℕ
  pub d : ℕ
  pub e : ℕ
  pub f : ℕ

pub data Request : Type 0 where
  hwaddr ifaddr netmask brdaddr : Request

pub data Answer : Type 0 where
  fails : Bytes → Answer  -- with the text of its `errno`
  fills : Sockaddr → Answer

abbrev pub Kernel : Type 0
Kernel = Request → Answer

-- `ret`, the union afterwards and `strerror(errno)`.
unfoldable pub ioctl_result : Answer → ℤ
ioctl_result (fails error) = negsuc 0
ioctl_result (fills address) = pos 0

unfoldable pub ioctl_union : Answer → Option Sockaddr → Option Sockaddr
ioctl_union (fails error) old = old
ioctl_union (fills address) old = some address

unfoldable pub ioctl_error : Answer → Bytes
ioctl_error (fails error) = error
ioctl_error (fills address) = []

-- The local variables: `cin`, `selection` and the union, which start out unset, and what was printed.
pub record Session : Type 0 where
  pub input : Bytes
  pub failed : Bool
  pub selection : Option ℤ
  pub union_addr : Option Sockaddr
  pub screen : List Bytes

unfoldable pub word_of : Bytes → Bytes
unfolding is_space
word_of [] = []
word_of (c ∷ text) = if is_space c then [] else c ∷ word_of text

unfoldable pub after_word : Bytes → Bytes
unfolding is_space
after_word [] = []
after_word (c ∷ text) = if is_space c then c ∷ text else after_word text

-- The failbit and the `int` that digits and a sign give: 0 without digits, the nearest value out of range.
unfoldable pub int_of : Bool → Bytes → Bool × ℤ
unfolding number
int_of minus [] = (true, pos 0)
int_of false (c ∷ ds) =
    let n = number 0 (c ∷ ds) in if leb n 2147483647 then (false, pos n) else (true, pos 2147483647)
int_of true (c ∷ ds) =
    let n = number 0 (c ∷ ds) in
    if leb n 2147483648 then (false, negative n) else (true, negsuc 2147483647)

unfoldable pub store_int : Bool → Bytes → Session → Session
unfolding int_of digits_of after_digits
store_int minus text s =
    let r = int_of minus (digits_of text) in
    record s { input = after_digits text; failed = r.0; selection = some (r.1) }

-- `cin >> selection`, behind the spaces: at the end of the input the variable stays as it is.
unfoldable pub read_int : Bytes → Session → Session
unfolding store_int
read_int [] s = record s { input = []; failed = true }
read_int (c ∷ text) s =
    if c == b'-'
    then store_int true text s
    else if c == b'+'
    then store_int false text s
    else store_int false (c ∷ text) s

unfoldable pub read_selection : Session → Session
unfolding read_int skip_white
read_selection s = if s.failed then s else read_int (skip_white s.input) s

-- `cin >> key`.
unfoldable pub take_key : Bytes → Session → Session
take_key [] s = record s { input = []; failed = true }
take_key (c ∷ text) s = record s { input = text }

unfoldable pub read_key : Session → Session
unfolding take_key skip_white
read_key s = if s.failed then s else take_key (skip_white s.input) s

unfoldable pub hex_digit : ℕ → ℕ
hex_digit n = if ltb n 10 then b'0' + n else b'A' + (n - 10)

-- "%02X" of a byte.
unfoldable pub hex : ℕ → Bytes
unfolding hex_digit
hex n = hex_digit (n / 16) ∷ hex_digit (n % 16) ∷ []

unfoldable pub mac_text : Sockaddr → Bytes
unfolding hex
mac_text s =
    hex s.a
    ++ b':' ∷ hex s.b
    ++ b':' ∷ hex s.c
    ++ b':' ∷ hex s.d
    ++ b':' ∷ hex s.e
    ++ b':' ∷ hex s.f

unfoldable pub inet_ntoa : Sockaddr → Bytes
inet_ntoa s =
    decimal (pos s.c)
    ++ b'.' ∷ decimal (pos s.d)
    ++ b'.' ∷ decimal (pos s.e)
    ++ b'.' ∷ decimal (pos s.f)

abbrev pub print : Bytes → Session → Session
print text s = record s { screen = s.screen ++ text ∷ [] }

unfoldable pub show_address : Bytes → Session → Outcome Session
unfolding inet_ntoa
show_address label s = elim s.union_addr [
  | none ↦ fault uninitialised
  | some address ↦ ok (print (label ++ inet_ntoa address) s)
]

-- ARPHRD_ETHER is 1.
unfoldable pub show_mac : Session → Outcome Session
unfolding mac_text
show_mac s = elim s.union_addr [
  | none ↦ fault uninitialised
  | some address ↦
      if not (address.sa_family == 1)
      then ok (print (codes "not an Ethernet interface") s)
      else ok (print (codes "MAC Address: " ++ mac_text address) s)
]

-- Case 1 tests `ret < 0`.
unfoldable pub hardware_case : Answer → Session → Outcome Session
unfolding show_mac ioctl_result ioctl_union ioctl_error
hardware_case answer s =
    let t = record s { union_addr = ioctl_union answer s.union_addr } in
    if ltb_ℤ (ioctl_result answer) (pos 0) then ok (print (ioctl_error answer) t) else show_mac t

-- Cases 2, 3 and 4 test `ret > 0`.
unfoldable pub address_case : Bytes → Answer → Session → Outcome Session
unfolding show_address ioctl_result ioctl_union ioctl_error
address_case label answer s =
    let t = record s { union_addr = ioctl_union answer s.union_addr } in
    if ltb_ℤ (pos 0) (ioctl_result answer)
    then ok (print (ioctl_error answer) t)
    else show_address label t

unfoldable pub choose : Kernel → ℤ → Session → Outcome Session
unfolding hardware_case address_case
choose kernel (pos n) s =
    if n == 1
    then hardware_case (kernel hwaddr) s
    else if n == 2
    then address_case (codes "IP Address: ") (kernel ifaddr) s
    else if n == 3
    then address_case (codes "Network Mask: ") (kernel netmask) s
    else if n == 4
    then address_case (codes "Broadcast Address: ") (kernel brdaddr) s
    else ok s
choose kernel (negsuc n) s = ok s

-- The body of the loop on the selection that was read.
unfoldable pub selected : Kernel → ℤ → Session → Outcome Session
unfolding choose read_key
selected kernel selection s =
    choose kernel selection s >>= λ t. ok (if is_zero selection then t else read_key t)

-- The loop with the answers of each pass; `none` if the fuel does not reach its end.
unfoldable pub menu : (ℕ → Kernel) → ℕ → Session → Outcome (Option Session)
unfolding selected read_selection
menu kernel zero s = ok none
menu kernel (suc fuel) s =
    let t = read_selection s in
    elim t.selection [
      | none ↦ fault uninitialised
      | some selection ↦ selected (kernel fuel) selection t >>= λ u.
          let rest = menu kernel fuel u in if is_zero selection then ok (some u) else rest
    ]

-- `cin >> if_name`: a word and its NUL are stored, whatever the array holds.
unfoldable pub read_name : Bytes → Outcome Bytes
unfolding word_of
read_name text =
    let name = word_of text in
    if ltb (length name) name_size then ok name else fault buffer_overflow

pub data Ending : Type 0 where
  too_long no_socket : Ending
  left : Option Session → Ending

-- Behind `strlen`: `fd` is the result of `socket`.
unfoldable pub with_name : (ℕ → Kernel) → ℕ → ℤ → Bytes → Session → Outcome Ending
unfolding menu
with_name kernel fuel fd name s =
    let session = menu kernel fuel s >>= λ o. ok (left o) in
    if ltb (length name) name_size
    then (if ltb_ℤ fd (pos 0) then ok no_socket else session)
    else ok too_long

unfoldable pub main : (ℕ → Kernel) → ℕ → ℤ → Bytes → Outcome Ending
unfolding read_name with_name after_word skip_white
main kernel fuel fd input = do
  let text = skip_white input
  name ← read_name text
  with_name kernel fuel fd name (record {
    input = after_word text;
    failed = length name == 0;
    selection = none;
    union_addr = none;
    screen = [];
  })

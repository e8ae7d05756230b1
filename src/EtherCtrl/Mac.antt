-- ===== src/EtherCtrl/Mac.antt =====
-- Labs/Lab 3/etherCtrl.cpp, the hardware address as it is printed.
use Prim.Native.Nat.{◌/◌}
use dps912_unix.Base.{
  ◌∙◌, Bytes, List, [], ap, arith, if◌then◌else◌, ltb, ◌%◌, ◌*◌, ◌++◌, ◌+◌, ◌-◌, ◌<◌, ◌∷◌, ◌≡◌, ℕ,
}
use dps912_unix.EtherCtrl.{hex, hex_digit, mac_text, Sockaddr}

digit_value : ℕ → ℕ
digit_value c = if ltb c b'A' then c - b'0' else c - b'A' + 10

-- The bytes that hexadecimal pairs with one character between them stand for.
unfoldable pub read_pairs : Bytes → List ℕ
unfolding digit_value
read_pairs [] = []
read_pairs (h ∷ []) = []
read_pairs (h ∷ l ∷ []) = (digit_value h * 16 + digit_value l) ∷ []
read_pairs (h ∷ l ∷ between ∷ text) = (digit_value h * 16 + digit_value l) ∷ read_pairs text

digit_value-hex_digit : (d : ℕ) → d < 16 → digit_value (hex_digit d) ≡ d
unfolding digit_value hex_digit
digit_value-hex_digit d h = ground arith

hex_back :
    (n : ℕ) → n < 256 → digit_value (hex_digit (n / 16)) * 16 + digit_value (hex_digit (n % 16)) ≡ n
hex_back n h =
    rw (digit_value-hex_digit (n / 16) (omega arith), digit_value-hex_digit (n % 16) (omega arith))
      (omega arith)

read_hex-between :
    (n between : ℕ) (text : Bytes)
    → n < 256
    → read_pairs (hex n ++ between ∷ text) ≡ n ∷ read_pairs text
unfolding read_pairs hex
read_hex-between n between text h = ap (λ (m : ℕ). m ∷ read_pairs text) (hex_back n h)

read_hex : (n : ℕ) → n < 256 → read_pairs (hex n) ≡ n ∷ []
unfolding read_pairs hex
read_hex n h = ap (λ (m : ℕ). m ∷ []) (hex_back n h)

-- The text of a hardware address shows each of its six bytes, in order, as two hexadecimal digits.
pub read_pairs-mac_text :
    (s : Sockaddr)
    → s.a < 256
    → s.b < 256
    → s.c < 256
    → s.d < 256
    → s.e < 256
    → s.f < 256
    → read_pairs (mac_text s) ≡ s.a ∷ s.b ∷ s.c ∷ s.d ∷ s.e ∷ s.f ∷ []
unfolding mac_text
read_pairs-mac_text s a b c d e f =
    let from_e = hex s.e ++ b':' ∷ hex s.f in
    let from_d = hex s.d ++ b':' ∷ from_e in
    let from_c = hex s.c ++ b':' ∷ from_d in
    let from_b = hex s.b ++ b':' ∷ from_c in
    read_hex-between s.a b':' from_b a
    ∙ ap (◌∷◌ s.a) (
        read_hex-between s.b b':' from_c b
        ∙ ap (◌∷◌ s.b) (
            read_hex-between s.c b':' from_d c
            ∙ ap (◌∷◌ s.c) (
                read_hex-between s.d b':' from_e d
                ∙ ap (◌∷◌ s.d)
                    (read_hex-between s.e b':' (hex s.f) e ∙ ap (◌∷◌ s.e) (read_hex s.f f)))))

-- ===== src/EtherCtrl/Tests.antt =====
-- Labs/Lab 3/etherCtrl.cpp at concrete inputs: uses of the theorems.
use dps912_unix.Base.{
  ◌++◌, is_space, List, [], arith, codes, none, ok, pos, refl, some, true, ◌∷◌, ◌≡◌,
}
use dps912_unix.EtherCtrl.{
  left, main, Session, fills, hex, hex_digit, hwaddr, ifaddr, mac_text, menu, Sockaddr,
}
use dps912_unix.EtherCtrl.Mac.{read_pairs-mac_text, read_pairs}
use dps912_unix.EtherCtrl.Menu.{menu_forever}
use dps912_unix.EtherCtrl.Names.{main_script}
use dps912_unix.EtherCtrl.Script.{Choice, all_shown, typed}

abbrev card : Sockaddr
card = record { sa_family = 1; a = 0; b = 27; c = 171; d = 16; e = 255; f = 9 }

abbrev session : Session
session = record {
  input = [];
  failed = true;
  selection = some (pos 1);
  union_addr = some card;
  screen = [];
}

mac_text_test : mac_text card ≡ codes "00:1B:AB:10:FF:09"
unfolding mac_text hex hex_digit
mac_text_test = refl

read_pairs-mac_text_example : read_pairs (mac_text card) ≡ 0 ∷ 27 ∷ 171 ∷ 16 ∷ 255 ∷ 9 ∷ []
read_pairs-mac_text_example =
    read_pairs-mac_text card (omega arith) (omega arith) (omega arith) (omega arith) (omega arith)
      (omega arith)

menu_forever_example : menu (λ n request. fills card) 100 session ≡ ok none
menu_forever_example =
    menu_forever (λ n request. fills card) 100 (pos 1) card session refl refl refl refl

abbrev twice : List Choice
twice =
    record { request = hwaddr; key = b'k'; visible = unfold is_space in refl }
    ∷ record { request = ifaddr; key = b'k'; visible = unfold is_space in refl }
    ∷ []

main_script_example :
    (t : Session) × (main (λ n request. fills card) 3 (pos 3) (codes "eth0" ++ typed twice)
      ≡ ok (left (some t)))
    × (t.screen ≡ all_shown (λ n request. card) twice)
    × (t.input ≡ [])
main_script_example =
    main_script (λ n request. card) 3 b'e' (codes "th0") twice
      (unfold is_space in (refl, (refl, (refl, (refl, tt))))) (omega arith)

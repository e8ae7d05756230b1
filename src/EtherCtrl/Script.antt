-- ===== src/EtherCtrl/Script.antt =====
-- Labs/Lab 3/etherCtrl.cpp, a whole session at the menu.
use dps912_unix.Base.{
  is_zero, after_digits, digits_of, is_space, number, skip_white, Bool, Option, Outcome, append-nil,
  append_assoc, fault, none, not, pos, refl, sym, true, uninitialised, ℤ, ◌>>=◌, Bytes, List, [],
  ap, codes, false, if◌then◌else◌, length, ok, set, some, suc, ◌++◌, ◌==◌, ◌∙◌, ◌∷◌, ◌≡◌, ℕ,
}
use dps912_unix.EtherCtrl.{
  address_case, choose, hardware_case, int_of, ioctl_result, ioctl_union, read_int, read_selection,
  selected, show_address, store_int, Kernel, Request, Session, brdaddr, fills, hwaddr, ifaddr,
  inet_ntoa, mac_text, menu, netmask, print, read_key, show_mac, take_key, Sockaddr,
}

-- A choice that shows an address, and the key pressed after it, both followed by the Enter key.
pub record Choice : Type 0 where
  pub request : Request
  pub key : ℕ
  pub visible : is_space key ≡ false

abbrev pub digit_of : Request → ℕ
digit_of hwaddr = b'1'
digit_of ifaddr = b'2'
digit_of netmask = b'3'
digit_of brdaddr = b'4'

-- What is typed behind the name, from its Enter key on.
unfoldable pub typed : List Choice → Bytes
typed [] = b'\n' ∷ b'0' ∷ []
typed (c ∷ cs) = b'\n' ∷ digit_of c.request ∷ b'\n' ∷ c.key ∷ typed cs

-- What a choice shows of an address.
unfoldable pub shown : Request → Sockaddr → Bytes
shown hwaddr a =
    if a.sa_family == 1
    then codes "MAC Address: " ++ mac_text a
    else codes "not an Ethernet interface"
shown ifaddr a = codes "IP Address: " ++ inet_ntoa a
shown netmask a = codes "Network Mask: " ++ inet_ntoa a
shown brdaddr a = codes "Broadcast Address: " ++ inet_ntoa a

unfoldable pub all_shown : (ℕ → Request → Sockaddr) → List Choice → List Bytes
unfolding shown
all_shown address [] = []
all_shown address (c ∷ cs) =
    shown c.request (address (suc (length cs)) c.request) ∷ all_shown address cs

read_key_lem :
    (key : ℕ) (rest : Bytes) (s : Session)
    → is_space key ≡ false
    → s.failed ≡ false
    → s.input ≡ b'\n' ∷ key ∷ rest
    → read_key s ≡ record s { input = rest; failed = false }
unfolding read_key
read_key_lem key rest s visible fine next =
    ap (λ b. if b then s else take_key (skip_white s.input) s) fine
    ∙ ap (λ i. take_key (skip_white i) s) next
    ∙ ap (λ b. take_key (if b then skip_white rest else key ∷ rest) s) visible
    ∙ λ i. record s { input = rest; failed = fine i }

show_mac_lem :
    (a : Sockaddr) (s : Session)
    → s.union_addr ≡ some a
    → show_mac s ≡ ok (print (shown hwaddr a) s)
unfolding show_mac shown
show_mac_lem a s set =
    ap
      (λ (u : Option Sockaddr). elim u [
        | none ↦ fault uninitialised
        | some address ↦
            if not (address.sa_family == 1)
            then ok (print (codes "not an Ethernet interface") s)
            else ok (print (codes "MAC Address: " ++ mac_text address) s)
      ])
      set
    ∙ inside (a.sa_family == 1)
  where
    inside :
        (b : Bool)
        → (if not b
            then ok (print (codes "not an Ethernet interface") s)
            else ok (print (codes "MAC Address: " ++ mac_text a) s))
          ≡ ok (
              print
                (if b
                  then codes "MAC Address: " ++ mac_text a
                  else codes "not an Ethernet interface")
                s)
    inside true = refl
    inside false = refl

abbrev number_of : Request → ℤ
number_of hwaddr = pos 1
number_of ifaddr = pos 2
number_of netmask = pos 3
number_of brdaddr = pos 4

choose_lem :
    (kernel : Kernel) (r : Request) (a : Sockaddr) (s : Session)
    → kernel r ≡ fills a
    → choose kernel (number_of r) s ≡ ok (print (shown r a) (record s { union_addr = some a }))
unfolding choose hardware_case address_case ioctl_result ioctl_union show_address shown
choose_lem kernel hwaddr a s e =
    ap (λ x. hardware_case x s) e ∙ show_mac_lem a (record s { union_addr = some a }) refl
choose_lem kernel ifaddr a s e = ap (λ x. address_case (codes "IP Address: ") x s) e
choose_lem kernel netmask a s e = ap (λ x. address_case (codes "Network Mask: ") x s) e
choose_lem kernel brdaddr a s e = ap (λ x. address_case (codes "Broadcast Address: ") x s) e

read_selection_lem :
    (r : Request) (rest : Bytes) (s : Session)
    → s.failed ≡ false
    → s.input ≡ b'\n' ∷ digit_of r ∷ b'\n' ∷ rest
    → read_selection s
      ≡ record s { input = b'\n' ∷ rest; failed = false; selection = some (number_of r) }
unfolding read_selection skip_white read_int store_int digits_of after_digits int_of number
read_selection_lem r rest s fine next =
    ap (λ b. if b then s else read_int (skip_white s.input) s) fine
    ∙ ap (λ i. read_int (skip_white i) s) next
    ∙ read r
  where
    read :
        (r : Request)
        → read_int (skip_white (b'\n' ∷ digit_of r ∷ b'\n' ∷ rest)) s
          ≡ record s { input = b'\n' ∷ rest; failed = false; selection = some (number_of r) }
    read hwaddr = refl
    read ifaddr = refl
    read netmask = refl
    read brdaddr = refl

nonzero : (r : Request) → is_zero (number_of r) ≡ false
nonzero hwaddr = refl
nonzero ifaddr = refl
nonzero netmask = refl
nonzero brdaddr = refl

-- A pass of the loop.
shows :
    (kernel : ℕ → Kernel) (n : ℕ) (c : Choice) (rest : Bytes) (a : Sockaddr) (s : Session)
    → kernel n c.request ≡ fills a
    → s.failed ≡ false
    → s.input ≡ b'\n' ∷ digit_of c.request ∷ b'\n' ∷ c.key ∷ rest
    → menu kernel (suc n) s
      ≡ menu kernel n (record s {
        input = rest;
        failed = false;
        selection = some (number_of c.request);
        union_addr = some a;
        screen = s.screen ++ shown c.request a ∷ [];
      })
unfolding menu selected
shows kernel n c rest a s answer fine next =
    let t = record s {
      input = b'\n' ∷ c.key ∷ rest;
      failed = false;
      selection = some (number_of c.request);
    } in
    let u = print (shown c.request a) (record t { union_addr = some a }) in
    ap (λ t. on_selection t.selection t) (read_selection_lem c.request (c.key ∷ rest) s fine next)
    ∙ ap
        (λ o.
          (o >>= λ t. ok (if is_zero (number_of c.request) then t else read_key t))
          >>= onward (number_of c.request))
        (choose_lem (kernel n) c.request a t answer)
    ∙ ap (λ b. let v = if b then u else read_key u in if b then ok (some v) else menu kernel n v)
        (nonzero c.request)
    ∙ ap (menu kernel n) (read_key_lem c.key rest u c.visible refl refl)
  where
    onward : ℤ → Session → Outcome (Option Session)
    onward selection u =
        let rest = menu kernel n u in if is_zero selection then ok (some u) else rest

    on_selection : Option ℤ → Session → Outcome (Option Session)
    on_selection o t = elim o [
      | none ↦ fault uninitialised
      | some selection ↦ selected (kernel n) selection t >>= onward selection
    ]

exits :
    (kernel : ℕ → Kernel) (n : ℕ) (s : Session)
    → s.failed ≡ false
    → s.input ≡ b'\n' ∷ b'0' ∷ []
    → menu kernel (suc n) s
      ≡ ok (some (record s { input = []; failed = false; selection = some (pos 0) }))
unfolding menu selected choose read_selection skip_white read_int store_int digits_of after_digits
    int_of number
exits kernel n s fine next =
    ap (λ b. let t = if b then s else read_int (skip_white s.input) s in on_selection t.selection t)
      fine
    ∙ ap (λ i. let t = read_int (skip_white i) s in on_selection t.selection t) next
  where
    onward : ℤ → Session → Outcome (Option Session)
    onward selection u =
        let rest = menu kernel n u in if is_zero selection then ok (some u) else rest

    on_selection : Option ℤ → Session → Outcome (Option Session)
    on_selection o t = elim o [
      | none ↦ fault uninitialised
      | some selection ↦ selected (kernel n) selection t >>= onward selection
    ]

-- Whoever types choices from 1 to 4, each with a key that is not a space, and then 0, while the kernel knows
-- the addresses, sees for each choice, in order, the address that the kernel gives at that time, and the
-- program ends at the 0.
pub menu_script :
    (address : ℕ → Request → Sockaddr) (cs : List Choice) (s : Session)
    → s.failed ≡ false
    → s.input ≡ typed cs
    → (t : Session) × (menu (λ n request. fills (address n request)) (suc (length cs)) s
        ≡ ok (some t))
      × (t.screen ≡ s.screen ++ all_shown address cs)
      × (t.input ≡ [])
unfolding typed all_shown
menu_script address [] s fine next = (
  _,
  exits (λ n request. fills (address n request)) 0 s fine next,
  sym (append-nil s.screen),
  refl,
)
menu_script address (c ∷ cs) s fine next =
    let a = address (suc (length cs)) c.request in
    let u = record s {
      input = typed cs;
      failed = false;
      selection = some (number_of c.request);
      union_addr = some a;
      screen = s.screen ++ shown c.request a ∷ [];
    } in
    let (t, result, screen, input) = menu_script address cs u refl refl in
    (
      t,
      shows (λ n request. fills (address n request)) (suc (length cs)) c (typed cs) a s refl fine
            next
          ∙ result,
      screen ∙ append_assoc s.screen (shown c.request a ∷ []) (all_shown address cs),
      input,
    )

-- ===== src/EtherCtrl/Menu.antt =====
-- Labs/Lab 3/etherCtrl.cpp, how long the menu goes on.
use dps912_unix.Base.{
  is_zero, skip_white, ◌>>=◌, Bool, Bool-cases, Bytes, Option, Outcome, ap, codes, false, fault,
  if◌then◌else◌, inl, inr, negsuc, none, not, ok, pos, refl, some, suc, true, uninitialised, zero,
  ℤ, ◌++◌, ◌==◌, ◌∙◌, ◌≡◌, ℕ,
}
use dps912_unix.EtherCtrl.{
  read_int, take_key, Answer, Kernel, Session, address_case, brdaddr, choose, fails, fills,
  hardware_case, hwaddr, ifaddr, inet_ntoa, ioctl_result, ioctl_union, mac_text, menu, netmask,
  print, read_key, read_selection, selected, show_address, show_mac, Sockaddr,
}

-- `cin` has failed with this number in `selection`.
record Stuck (selection : ℤ) (s : Session) : Type 0 where
  failed : s.failed ≡ true
  chosen : s.selection ≡ some selection
  old : Sockaddr
  set : s.union_addr ≡ some old

-- What a piece of the loop does to such a session.
Goes : ℤ → Outcome Session → Type 0
Goes selection o = (t : Session) × (o ≡ ok t) × Stuck selection t

Goes-show_mac : (selection : ℤ) (s : Session) → Stuck selection s → Goes selection (show_mac s)
unfolding show_mac Goes
Goes-show_mac selection s k = elim (Bool-cases (not (k.old.sa_family == 1))) [
  | inl e ↦ (print (codes "not an Ethernet interface") s, shown ∙ rw e refl, same _)
  | inr e ↦ (print (codes "MAC Address: " ++ mac_text k.old) s, shown ∙ rw e refl, same _)
]
  where
    same : (text : Bytes) → Stuck selection (print text s)
    same text = record { failed = k.failed; chosen = k.chosen; old = k.old; set = k.set }

    shown : show_mac s ≡ (
        if not (k.old.sa_family == 1)
        then ok (print (codes "not an Ethernet interface") s)
        else ok (print (codes "MAC Address: " ++ mac_text k.old) s))
    shown =
        ap
          (λ (u : Option Sockaddr). elim u [
            | none ↦ fault uninitialised
            | some address ↦
                if not (address.sa_family == 1)
                then ok (print (codes "not an Ethernet interface") s)
                else ok (print (codes "MAC Address: " ++ mac_text address) s)
          ])
          k.set

Goes-hardware :
    (selection : ℤ) (a : Answer) (s : Session)
    → Stuck selection s
    → Goes selection (hardware_case a s)
unfolding hardware_case ioctl_result ioctl_union Goes
Goes-hardware selection (fails error) s k =
    (_, refl, record { failed = k.failed; chosen = k.chosen; old = k.old; set = k.set })
Goes-hardware selection (fills a) s k =
    Goes-show_mac selection (record s { union_addr = some a })
      (record { failed = k.failed; chosen = k.chosen; old = a; set = refl })

Goes-show_address :
    (selection : ℤ) (label : Bytes) (s : Session)
    → Stuck selection s
    → Goes selection (show_address label s)
unfolding show_address Goes
Goes-show_address selection label s k = (
  print (label ++ inet_ntoa k.old) s,
  ap
      (λ (u : Option Sockaddr). elim u [
        | none ↦ fault uninitialised
        | some address ↦ ok (print (label ++ inet_ntoa address) s)
      ])
      k.set,
  record { failed = k.failed; chosen = k.chosen; old = k.old; set = k.set },
)

Goes-address :
    (selection : ℤ) (label : Bytes) (a : Answer) (s : Session)
    → Stuck selection s
    → Goes selection (address_case label a s)
unfolding address_case ioctl_result ioctl_union
Goes-address selection label (fails error) s k =
    Goes-show_address selection label (record s { union_addr = s.union_addr }) k
Goes-address selection label (fills a) s k =
    Goes-show_address selection label (record s { union_addr = some a })
      (record { failed = k.failed; chosen = k.chosen; old = a; set = refl })

Goes-if :
    (selection : ℤ) (b : Bool) (o p : Outcome Session)
    → Goes selection o
    → Goes selection p
    → Goes selection (if b then o else p)
Goes-if selection true o p g h = g
Goes-if selection false o p g h = h

Goes-choose :
    (selection n : ℤ) (kernel : Kernel) (s : Session)
    → Stuck selection s
    → Goes selection (choose kernel n s)
unfolding choose Goes
Goes-choose selection (negsuc n) kernel s k = (s, refl, k)
Goes-choose selection (pos n) kernel s k =
    Goes-if selection (n == 1) _ _ (Goes-hardware selection (kernel hwaddr) s k) (
      Goes-if selection (n == 2) _ _
        (Goes-address selection (codes "IP Address: ") (kernel ifaddr) s k)
        (Goes-if selection (n == 3) _ _
          (Goes-address selection (codes "Network Mask: ") (kernel netmask) s k)
          (Goes-if selection (n == 4) _ _
            (Goes-address selection (codes "Broadcast Address: ") (kernel brdaddr) s k)
            (s, refl, k))))

Stuck-forever :
    (kernel : ℕ → Kernel) (fuel : ℕ) (selection : ℤ) (s : Session)
    → is_zero selection ≡ false
    → Stuck selection s
    → menu kernel fuel s ≡ ok none
unfolding menu selected read_selection read_key Goes
Stuck-forever kernel zero selection s nonzero k = refl
Stuck-forever kernel (suc fuel) selection s nonzero k =
    let (t, went, kept) = Goes-choose selection selection (kernel fuel) s k in
    ap
      (λ b.
        on_selection (if b then s else read_int (skip_white s.input) s).selection
          (if b then s else read_int (skip_white s.input) s))
      k.failed
    ∙ ap (λ o. on_selection o s) k.chosen
    ∙ ap (λ o. (o >>= λ t. ok (if is_zero selection then t else read_key t)) >>= onward selection)
        went
    ∙ ap (λ b. let u = if b then t else read_key t in if b then ok (some u) else menu kernel fuel u)
        nonzero
    ∙ ap (λ b. menu kernel fuel (if b then t else take_key (skip_white t.input) t)) kept.failed
    ∙ Stuck-forever kernel fuel selection t nonzero kept
  where
    onward : ℤ → Session → Outcome (Option Session)
    onward selection u =
        let rest = menu kernel fuel u in if is_zero selection then ok (some u) else rest

    on_selection : Option ℤ → Session → Outcome (Option Session)
    on_selection o t = elim o [
      | none ↦ fault uninitialised
      | some selection ↦ selected (kernel fuel) selection t >>= onward selection
    ]

-- Once `cin` has failed with a number other than 0 in `selection` and the union set, the
-- menu comes to no end in any number of passes, whatever the kernel answers.
pub menu_forever :
    (kernel : ℕ → Kernel) (fuel : ℕ) (selection : ℤ) (old : Sockaddr) (s : Session)
    → s.failed ≡ true
    → s.selection ≡ some selection
    → is_zero selection ≡ false
    → s.union_addr ≡ some old
    → menu kernel fuel s ≡ ok none
menu_forever kernel fuel selection old s failed chosen nonzero set =
    Stuck-forever kernel fuel selection s nonzero
      (record { failed = failed; chosen = chosen; old = old; set = set })

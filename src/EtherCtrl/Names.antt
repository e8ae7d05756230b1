-- ===== src/EtherCtrl/Names.antt =====
-- Labs/Lab 3/etherCtrl.cpp, `main` from the name of the interface on.
use dps912_unix.Base.{
  ==_of_ne, arith, ltb_of_lt, ltb_ℤ, sym, ◌+◌, List, if◌then◌else◌, ltb, ltb_of_le, none, ok, pos,
  some, suc, ◌<◌, ◌==◌, ◌>>=◌, ◌∙◌, All, Bytes, [], ap, buffer_overflow, false, fault, is_space,
  length, refl, skip_white, true, ℤ, ◌++◌, ◌∷◌, ◌≡◌, ◌≤◌, ℕ,
}
use dps912_unix.EtherCtrl.{
  menu, no_socket, too_long, Request, Session, fills, left, name_size, with_name, Kernel,
  after_word, main, read_name, word_of, Sockaddr,
}
use dps912_unix.EtherCtrl.Script.{menu_script, all_shown, typed, Choice}

-- No space in a word.
abbrev pub Solid : Bytes → Type 0
Solid = All λ c. is_space c ≡ false

word_of-append :
    (name : Bytes) (c : ℕ) (rest : Bytes)
    → Solid name
    → is_space c ≡ true
    → word_of (name ++ c ∷ rest) ≡ name
unfolding word_of
word_of-append [] c rest h k = rw k refl
word_of-append (d ∷ name) c rest h k = rw h.0 (ap (◌∷◌ d) (word_of-append name c rest h.1 k))

after_word-append :
    (name : Bytes) (c : ℕ) (rest : Bytes)
    → Solid name
    → is_space c ≡ true
    → after_word (name ++ c ∷ rest) ≡ c ∷ rest
unfolding after_word
after_word-append [] c rest h k = rw k refl
after_word-append (d ∷ name) c rest h k = rw h.0 (after_word-append name c rest h.1 k)

skip_white_solid : (d : ℕ) (name : Bytes) → is_space d ≡ false → skip_white (d ∷ name) ≡ d ∷ name
unfolding skip_white
skip_white_solid d name h = rw h refl

-- The session behind a name.
unfoldable pub named_session : Bytes → Bytes → Session
named_session text name = record {
  input = after_word text;
  failed = length name == 0;
  selection = none;
  union_addr = none;
  screen = [];
}

main_name :
    (kernel : ℕ → Kernel) (fuel : ℕ) (fd : ℤ) (d : ℕ) (name : Bytes) (c : ℕ) (rest : Bytes)
    → Solid (d ∷ name)
    → is_space c ≡ true
    → main kernel fuel fd ((d ∷ name) ++ c ∷ rest) ≡ (
        (if ltb (length (d ∷ name)) name_size then ok (d ∷ name) else fault buffer_overflow)
        >>= λ word. with_name kernel fuel fd word (named_session ((d ∷ name) ++ c ∷ rest) word))
unfolding main read_name named_session
main_name kernel fuel fd d name c rest solid space =
    let text = (d ∷ name) ++ c ∷ rest in
    ap (λ text. read_name text >>= λ word. with_name kernel fuel fd word (named_session text word))
      (skip_white_solid d (name ++ c ∷ rest) solid.0)
    ∙ ap
        (λ (word : Bytes).
          (if ltb (length word) name_size then ok word else fault buffer_overflow) >>= λ word.
          with_name kernel fuel fd word (named_session text word))
        (word_of-append (d ∷ name) c rest solid space)

-- A name of sixteen characters or more overflows the array, before its length is tested.
pub long_name_overflows :
    (kernel : ℕ → Kernel) (fuel : ℕ) (fd : ℤ) (d : ℕ) (name : Bytes) (c : ℕ) (rest : Bytes)
    → Solid (d ∷ name)
    → is_space c ≡ true
    → 16 ≤ length (d ∷ name)
    → main kernel fuel fd ((d ∷ name) ++ c ∷ rest) ≡ fault buffer_overflow
long_name_overflows kernel fuel fd d name c rest solid space long =
    main_name kernel fuel fd d name c rest solid space
    ∙ ap
        (λ b. (if b then ok (d ∷ name) else fault buffer_overflow) >>= λ word.
          with_name kernel fuel fd word (named_session ((d ∷ name) ++ c ∷ rest) word))
        (ltb_of_le (length (d ∷ name)) name_size long)

typed_newline : (cs : List Choice) → (rest : Bytes) × (typed cs ≡ b'\n' ∷ rest)
unfolding typed
typed_newline [] = (_, refl)
typed_newline (c ∷ cs) = (_, refl)

with_name_lem :
    (kernel : ℕ → Kernel) (fuel fd : ℕ) (name : Bytes) (s : Session)
    → length name < name_size
    → with_name kernel fuel (pos fd) name s ≡ (menu kernel fuel s >>= λ o. ok (left o))
unfolding with_name
with_name_lem kernel fuel fd name s short =
    let session = menu kernel fuel s >>= λ o. ok (left o) in
    ap (λ b. if b then (if ltb_ℤ (pos fd) (pos 0) then ok no_socket else session) else ok too_long)
      (ltb_of_lt (length name) name_size short)
    ∙ ap (λ b. if b then ok no_socket else session) (ltb_of_le (fd + 0) (0 + 0) (omega arith))

-- Whoever types a name of fewer than sixteen characters, then choices from 1 to 4, each with a key that is not
-- a space, and then 0, while the socket can be made and the kernel knows the addresses, sees for each choice,
-- in order, the address that the kernel gives at that time, and the program ends at the 0.
pub main_script :
    (address : ℕ → Request → Sockaddr) (fd d : ℕ) (name : Bytes) (cs : List Choice)
    → Solid (d ∷ name)
    → length (d ∷ name) < 16
    → (t : Session) × (main
          (λ n request. fills (address n request))
          (suc (length cs))
          (pos fd)
          ((d ∷ name) ++ typed cs)
        ≡ ok (left (some t)))
      × (t.screen ≡ all_shown address cs)
      × (t.input ≡ [])
unfolding named_session
main_script address fd d name cs solid short =
    let (rest, e) = typed_newline cs in
    let text = (d ∷ name) ++ b'\n' ∷ rest in
    let s = named_session text (d ∷ name) in
    let kernel : ℕ → Kernel = λ n request. fills (address n request) in
    let size = suc (length cs) in
    let space : is_space b'\n' ≡ true = unfold is_space in refl in
    let (t, result, screen, input) =
      menu_script address cs s (==_of_ne (length (d ∷ name)) 0 (λ e. absurd (omega arith)))
        (after_word-append (d ∷ name) b'\n' rest solid space ∙ sym e) in
    (
      t,
      ap (λ w. main kernel size (pos fd) ((d ∷ name) ++ w)) e
          ∙ main_name kernel size (pos fd) d name b'\n' rest solid space
          ∙ ap
              (λ b. (if b then ok (d ∷ name) else fault buffer_overflow) >>= λ word.
                with_name kernel size (pos fd) word (named_session text word))
              (ltb_of_lt (length (d ∷ name)) name_size short)
          ∙ with_name_lem kernel size fd (d ∷ name) s short
          ∙ ap (λ o. o >>= λ o. ok (left o)) result,
      screen,
      input,
    )

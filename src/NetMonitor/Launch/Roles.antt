-- ===== src/NetMonitor/Launch/Roles.antt =====
-- Assignments/A1/netMonitor.cpp, what the parent and its children become.
use dps912_unix.Base.{
  refl, Bool, Option, Outcome, ap, arith, exit_failure, fault, if◌then◌else◌, ltb_of_le, ltb_ℤ, ◌+◌,
  ◌∙◌, Bytes, List, [], false, is_zero, none, ok, pos, some, true, ◌>>=◌, ◌∷◌, ◌≡◌, ℕ,
}
use dps912_unix.NetMonitor.{Net, child_argument, first_two, print_line, serve, Link}
use dps912_unix.NetMonitor.Launch.{
  connections, Launched, Fate, failed_child, parent, replaced, go_on, launch, launch_child, main,
  monitors, passes, read_names, serves, set_up, Setup,
}

-- Two names on the input, and a socket that can be bound.
pub record IsReady (first second : Bytes) (os : Setup) : Type 0 where
  pub two : os.number ≡ pos 2
  pub named : os.words ≡ first ∷ second ∷ []
  pub fd : ℕ
  pub opened : os.socket ≡ pos fd
  pub bound : os.bind ≡ pos 0

-- The two connections.
abbrev two_links : (ℕ → Link) → List Link
two_links accept = accept 0 ∷ accept 1 ∷ []

two_names :
    (first second : Bytes) (os : Setup) (accept : ℕ → Link) (n : Net)
    → IsReady first second os
    → main os accept n ≡ (launch os (first ∷ second ∷ []) 0 2 [] n >>= go_on os (two_links accept))
unfolding main read_names first_two connections
two_names first second os accept n r = (λ i.
    first_two (read_names (passes (r.two i)) (r.named i)) >>= λ intf.
    launch os intf 0 (passes (r.two i)) [] n >>= go_on os (connections accept (passes (r.two i))))

set_up_ready :
    (first second : Bytes) (os : Setup) (links : List Link) (n : Net)
    → IsReady first second os
    → set_up os links n
      ≡ (serve links (record n { socket_open = true }) >>= λ p. ok (serves p.0 p.1))
unfolding set_up
set_up_ready first second os links n r =
    let served = serve links (record n { socket_open = true }) >>= λ p. ok (serves p.0 p.1) in
    let bound : Outcome Fate = if ltb_ℤ os.bind (pos 0) then fault exit_failure else served in
    ap (λ fd. if ltb_ℤ fd (pos 0) then fault exit_failure else bound) r.opened
    ∙ ap (λ b. if b then fault exit_failure else bound) (ltb_of_le (r.fd + 0) (0 + 0) (omega arith))
    ∙ ap (λ result. if ltb_ℤ result (pos 0) then fault exit_failure else served) r.bound

-- A pass of the loop with the forks, by whether it is the child's.
abbrev after_fork : Setup → List Bytes → ℕ → Outcome Launched → Net → Bool → Outcome Launched
after_fork os intf i as_parent n b =
    let as_child = child_argument intf i >>= λ name. ok (launch_child os name n) in
    if b then as_child else as_parent

first_fork :
    (os : Setup) (intf : List Bytes) (links : List Link) (n : Net) (b : Bool)
    → is_zero (os.fork 0) ≡ b
    → (launch os intf 0 2 [] n >>= go_on os links)
      ≡ (after_fork os intf 0 (launch os intf 1 1 (os.fork 0 ∷ []) n) n b >>= go_on os links)
unfolding launch
first_fork os intf links n b h =
    ap (λ b. after_fork os intf 0 (launch os intf 1 1 (os.fork 0 ∷ []) n) n b >>= go_on os links) h

second_fork :
    (os : Setup) (intf : List Bytes) (links : List Link) (n : Net) (b : Bool)
    → is_zero (os.fork 1) ≡ b
    → (launch os intf 1 1 (os.fork 0 ∷ []) n >>= go_on os links)
      ≡ (after_fork os intf 1 (ok (parent (os.fork 0 ∷ os.fork 1 ∷ []) n)) n b >>= go_on os links)
unfolding launch
second_fork os intf links n b h =
    ap
      (λ b.
        after_fork os intf 1 (ok (parent (os.fork 0 ∷ os.fork 1 ∷ []) n)) n b >>= go_on os links)
      h

-- A child with this answer of its `execlp`.
unfoldable child_role : Setup → List Link → Net → Bytes → Option Bytes → Outcome Fate
child_role os links n name o =
    go_on os links
      (elim o [ none ↦ replaced name | some error ↦ failed_child (print_line error n) ])

-- A process that serves its connections, once the socket is bound.
unfoldable pub served : List Link → Net → Outcome Fate
served links n = serve links (record n { socket_open = true }) >>= λ p. ok (serves p.0 p.1)

-- The process that was started.
parent_serves :
    (first second : Bytes) (os : Setup) (accept : ℕ → Link) (n : Net)
    → IsReady first second os
    → is_zero (os.fork 0) ≡ false
    → is_zero (os.fork 1) ≡ false
    → main os accept n ≡ served (two_links accept) n
unfolding go_on served
parent_serves first second os accept n r fork_0 fork_1 =
    let links = two_links accept in
    two_names first second os accept n r
    ∙ first_fork os (first ∷ second ∷ []) links n false fork_0
    ∙ second_fork os (first ∷ second ∷ []) links n false fork_1
    ∙ set_up_ready first second os links n r

-- The first child.
first_becomes :
    (first second : Bytes) (os : Setup) (accept : ℕ → Link) (n : Net) (o : Option Bytes)
    → IsReady first second os
    → is_zero (os.fork 0) ≡ true
    → os.execlp first ≡ o
    → main os accept n ≡ child_role os (two_links accept) n first o
unfolding go_on launch_child child_argument child_role
first_becomes first second os accept n o r fork_0 result =
    two_names first second os accept n r
    ∙ first_fork os (first ∷ second ∷ []) (two_links accept) n true fork_0
    ∙ ap (child_role os (two_links accept) n first) result

-- The second.
second_becomes :
    (first second : Bytes) (os : Setup) (accept : ℕ → Link) (n : Net) (o : Option Bytes)
    → IsReady first second os
    → is_zero (os.fork 0) ≡ false
    → is_zero (os.fork 1) ≡ true
    → os.execlp second ≡ o
    → main os accept n ≡ child_role os (two_links accept) n second o
unfolding go_on launch_child child_argument child_role
second_becomes first second os accept n o r fork_0 fork_1 result =
    let links = two_links accept in
    two_names first second os accept n r
    ∙ first_fork os (first ∷ second ∷ []) links n false fork_0
    ∙ second_fork os (first ∷ second ∷ []) links n true fork_1
    ∙ ap (child_role os links n second) result

-- What a process is: the one that was started, or the child for one of the interfaces, with the answer of its
-- `execlp`.
pub data Role (first second : Bytes) (os : Setup) : Type 0 where
  started : is_zero (os.fork 0) ≡ false → is_zero (os.fork 1) ≡ false → Role first second os
  first_child :
      (o : Option Bytes) → is_zero (os.fork 0) ≡ true → os.execlp first ≡ o → Role first second os
  second_child :
      (o : Option Bytes)
      → is_zero (os.fork 0) ≡ false
      → is_zero (os.fork 1) ≡ true
      → os.execlp second ≡ o
      → Role first second os

-- A child is an intfMonitor of its interface; one whose `execlp` failed serves with the error on the screen.
unfoldable pub child_fate : List Link → Net → Bytes → Option Bytes → Outcome Fate
unfolding served
child_fate links n name none = ok (monitors name)
child_fate links n name (some error) = served links (print_line error n)

unfoldable pub fate :
    {first second : Bytes} {os : Setup} → Role first second os → List Link → Net → Outcome Fate
unfolding served child_fate
fate (started e f) links n = served links n
fate {first} (first_child o e f) links n = child_fate links n first o
fate {first} {second} (second_child o e f g) links n = child_fate links n second o

child_role-fate :
    (first second name : Bytes) (os : Setup) (links : List Link) (n : Net) (o : Option Bytes)
    → IsReady first second os
    → child_role os links n name o ≡ child_fate links n name o
unfolding child_role child_fate go_on served
child_role-fate first second name os links n none r = refl
child_role-fate first second name os links n (some error) r =
    set_up_ready first second os links (print_line error n) r

-- With two names on the input, and a socket that the process can make and bind, the one that was started serves
-- its two connections, and each child becomes an intfMonitor of its own interface. But a child whose `execlp`
-- fails does not end: it prints the error, binds the socket as well, and serves two connections as its parent
-- does.
pub main-Role :
    {first second : Bytes} {os : Setup} (role : Role first second os) (accept : ℕ → Link) (n : Net)
    → IsReady first second os
    → main os accept n ≡ fate role (accept 0 ∷ accept 1 ∷ []) n
unfolding fate
main-Role {first} {second} {os} (started e f) accept n r =
    parent_serves first second os accept n r e f
main-Role {first} {second} {os} (first_child o e f) accept n r =
    first_becomes first second os accept n o r e f
    ∙ child_role-fate first second first os (two_links accept) n o r
main-Role {first} {second} {os} (second_child o e f g) accept n r =
    second_becomes first second os accept n o r e f g
    ∙ child_role-fate first second second os (two_links accept) n o r

-- ===== src/SystemMonitor/Forks.antt =====
-- Labs/Lab 5/sysmonExec.cpp, a child that is not replaced and a `fork` that fails.
use mathlib.Core.Path.{subst}
use dps912_unix.Base.{
  Option, ap, if◌then◌else◌, none, true, ◌∙◌, Bytes, List, [], codes, decimal, false, is_zero,
  negsuc, pos, refl, some, sym, ℤ, ◌++◌, ◌∷◌, ◌≡◌, ℕ,
}
use dps912_unix.SystemMonitor.{
  and_then, print, replaced, Monitor, child, conclude, delivered, here, main, spawn, tag, System,
}
use dps912_unix.SystemMonitor.Signalling.{main_signals}

-- A process that got a signal.
pub data Got (pid : ℤ) (signal : ℕ) : List (ℤ × ℕ) → Type 0 where
  first : (rest : List (ℤ × ℕ)) → Got pid signal ((pid, signal) ∷ rest)
  later : (g : ℤ × ℕ) (rest : List (ℤ × ℕ)) → Got pid signal rest → Got pid signal (g ∷ rest)

Got-left :
    (pid : ℤ) (signal : ℕ) (xs ys : List (ℤ × ℕ)) → Got pid signal xs → Got pid signal (xs ++ ys)
Got-left pid signal [] ys h = elim h [ ]
Got-left pid signal (x ∷ xs) ys (first rest) = first (xs ++ ys)
Got-left pid signal (x ∷ xs) ys (later g rest h) = later x (xs ++ ys) (Got-left pid signal xs ys h)

Got-right :
    (pid : ℤ) (signal : ℕ) (xs ys : List (ℤ × ℕ)) → Got pid signal ys → Got pid signal (xs ++ ys)
Got-right pid signal [] ys h = h
Got-right pid signal (x ∷ xs) ys h = later x (xs ++ ys) (Got-right pid signal xs ys h)

Got-tag :
    (pid : ℤ) (signal : ℕ) (before behind : List ℤ)
    → Got pid signal (tag (before ++ pid ∷ behind) signal)
unfolding tag
Got-tag pid signal [] behind = first (tag behind signal)
Got-tag pid signal (x ∷ before) behind =
    later (x, signal) (tag (before ++ pid ∷ behind) signal) (Got-tag pid signal before behind)

-- When the second `fork` fails, its -1 is taken for a child, and as kill(2) sends what is meant for -1 to
-- every process that the user may signal, each of these gets both signals.
pub failed_fork_signals :
    (os : System) (a pid : ℤ) (before behind : List ℤ)
    → os.fork 0 ≡ a
    → os.fork 1 ≡ negsuc 0
    → is_zero a ≡ false
    → ((signal : ℕ) → os.kill a signal ≡ delivered (a ∷ []))
    → ((signal : ℕ) → os.kill (negsuc 0) signal ≡ delivered (before ++ pid ∷ behind))
    → (t : Monitor) × (main os ≡ here t) × Got pid 10 t.got × Got pid 12 t.got
failed_fork_signals os a pid before behind fork_a fork_b ha one every =
    let all = before ++ pid ∷ behind in
    let (t, result, got, _) =
      main_signals os a (negsuc 0) (a ∷ []) all fork_a fork_b ha refl (one 10) (every 10) (one 12)
        (every 12) in
    let starts : Got pid 10 (((tag (a ∷ []) 10 ++ tag all 10) ++ tag (a ∷ []) 12) ++ tag all 12) =
      Got-left pid 10 _ _ (
        Got-left pid 10 _ _
          (Got-right pid 10 (tag (a ∷ []) 10) _ (Got-tag pid 10 before behind))) in
    let stops : Got pid 12 (((tag (a ∷ []) 10 ++ tag all 10) ++ tag (a ∷ []) 12) ++ tag all 12) =
      Got-right pid 12 ((tag (a ∷ []) 10 ++ tag all 10) ++ tag (a ∷ []) 12) _
        (Got-tag pid 12 before behind) in
    (t, result, subst (Got pid 10) (sym got) starts, subst (Got pid 12) (sym got) stops)

-- The first child, when `execlp` fails: it leaves the loop, signals nobody, and prints the parent's last line.
pub child_falls_through :
    (os : System) (error : Bytes)
    → os.fork 0 ≡ pos 0
    → os.execlp (codes "lo") ≡ some error
    → (t : Monitor) × (main os ≡ here t)
      × (t.got ≡ [])
      × (t.screen
          ≡ (codes "parent:main: pid:" ++ decimal os.self)
            ∷ (codes "child:main: pid:" ++ decimal os.self)
            ∷ (codes "child:main: pid:" ++ (decimal os.self ++ codes " I should not get here!"))
            ∷ error
            ∷ (codes "parent:main(" ++ (decimal os.self ++ codes "): Finished!"))
            ∷ [])
unfolding main spawn child conclude
child_falls_through os error fork_a failed =
    let s : Monitor = record {
      is_parent = true;
      child_pid = os.fork 0 ∷ pos 0 ∷ [];
      got = [];
      screen = (codes "parent:main: pid:" ++ decimal os.self) ∷ [];
    } in
    let t = record (print (codes "child:main: pid:" ++ decimal os.self) s) { is_parent = false } in
    let u = print error (
      print (codes "child:main: pid:" ++ (decimal os.self ++ codes " I should not get here!")) t) in
    (
      print (codes "parent:main(" ++ (decimal os.self ++ codes "): Finished!")) u,
      ap
            (λ b.
              and_then (if b then and_then (child os 0 s) (spawn os 1 1) else spawn os 1 1 s)
                (conclude os))
            (ap is_zero fork_a)
          ∙ ap
              (λ (o : Option Bytes).
                and_then
                  (and_then
                    (elim o [
                      | none ↦ replaced (codes "lo") t
                      | some error ↦ here (
                          print error (
                            print
                              (codes "child:main: pid:"
                                ++ (decimal os.self ++ codes " I should not get here!"))
                              t))
                    ])
                    (spawn os 1 1))
                  (conclude os))
              failed,
      refl,
      refl,
    )

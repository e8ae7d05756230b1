-- ===== src/PidReport/Reports.antt =====
-- Labs/Lab 2/LabTwo_Watler.cpp, what the whole report shows.
use dps912_unix.Base.{
  Bool-cases, Bytes, List, [], ap, append-nil, append_assoc, codes, if◌then◌else◌, inl, inr, pos,
  refl, sym, ℤ, ◌++◌, ◌==◌, ◌∙◌, ◌∷◌, ◌≡◌, ℕ,
}
use dps912_unix.PidReport.{
  Lookup, list_all, look_up_name, look_up_pid, main, pid_line, show_all, show_lab2, show_lab22,
  show_or_keep, PidUtil,
}

-- A line for a process that is found, none for another.
unfoldable pub line_if : ℕ → ℤ → Bytes → List Bytes
line_if status pid name = if status == 0 then pid_line pid name ∷ [] else []

-- What a lookup of a name leaves in its reference parameter, on success and on failure, is what the next one
-- gets there.
unfoldable pub lines_of : PidUtil → Bytes → List ℤ → List Bytes
unfolding line_if
lines_of util old [] = []
lines_of util old (pid ∷ pids) =
    let r = util.get_name_by_pid pid old in line_if r.0 pid r.1 ++ lines_of util r.1 pids

unfoldable pub left_name : PidUtil → Bytes → List ℤ → Bytes
left_name util old [] = old
left_name util old (pid ∷ pids) = left_name util (util.get_name_by_pid pid old).1 pids

screen-show_or_keep :
    (util : PidUtil) (pid : ℤ) (s : Lookup)
    → (show_or_keep util pid s).screen ≡ s.screen ++ line_if s.err_status pid s.s_name
unfolding show_or_keep line_if
screen-show_or_keep util pid s = elim (Bool-cases (s.err_status == 0)) [
  | inl e ↦ rw e refl
  | inr e ↦ rw e (sym (append-nil s.screen))
]

screen-look_up_name :
    (util : PidUtil) (pid : ℤ) (s : Lookup)
    → (look_up_name util pid s).screen
      ≡ s.screen
        ++ line_if (util.get_name_by_pid pid s.s_name).0 pid (util.get_name_by_pid pid s.s_name).1
unfolding look_up_name
screen-look_up_name util pid s =
    let r = util.get_name_by_pid pid s.s_name in
    screen-show_or_keep util pid (record s { err_status = r.0; s_name = r.1 })

s_name-look_up_name :
    (util : PidUtil) (pid : ℤ) (s : Lookup)
    → (look_up_name util pid s).s_name ≡ (util.get_name_by_pid pid s.s_name).1
unfolding look_up_name show_or_keep
s_name-look_up_name util pid s = elim (Bool-cases ((util.get_name_by_pid pid s.s_name).0 == 0)) [
  | inl e ↦ rw e refl
  | inr e ↦ rw e refl
]

screen-show_all :
    (util : PidUtil) (pids : List ℤ) (s : Lookup)
    → (show_all util pids s).screen ≡ s.screen ++ lines_of util s.s_name pids
unfolding show_all lines_of
screen-show_all util [] s = sym (append-nil s.screen)
screen-show_all util (pid ∷ pids) s =
    let r = util.get_name_by_pid pid s.s_name in
    screen-show_all util pids (look_up_name util pid s)
    ∙ ap (λ name. (look_up_name util pid s).screen ++ lines_of util name pids)
        (s_name-look_up_name util pid s)
    ∙ ap (λ (l : List Bytes). l ++ lines_of util r.1 pids) (screen-look_up_name util pid s)
    ∙ append_assoc s.screen (line_if r.0 pid r.1) (lines_of util r.1 pids)

s_name-show_all :
    (util : PidUtil) (pids : List ℤ) (s : Lookup)
    → (show_all util pids s).s_name ≡ left_name util s.s_name pids
unfolding show_all left_name
s_name-show_all util [] s = refl
s_name-show_all util (pid ∷ pids) s =
    s_name-show_all util pids (look_up_name util pid s)
    ∙ ap (λ name. left_name util name pids) (s_name-look_up_name util pid s)

-- The processes of the list: none if the list fails.
unfoldable pub listed : ℕ × List ℤ → List ℤ
listed all = if all.0 == 0 then all.1 else []

list_all_lem :
    (util : PidUtil) (s : Lookup)
    → ((list_all util s).screen
        ≡ s.screen ++ lines_of util s.s_name (listed (util.get_all_pids [])))
      × ((list_all util s).s_name ≡ left_name util s.s_name (listed (util.get_all_pids [])))
unfolding list_all listed lines_of left_name
list_all_lem util s = elim (Bool-cases ((util.get_all_pids []).0 == 0)) [
  | inl e ↦
      let t = record s { err_status = (util.get_all_pids []).0 } in
      rw e (
        screen-show_all util (util.get_all_pids []).1 t,
        s_name-show_all util (util.get_all_pids []).1 t,
      )
  | inr e ↦ rw e (sym (append-nil s.screen), refl)
]

-- The process number that the lookup of "Lab2" leaves.
screen-show_lab2 :
    (util : PidUtil) (s : Lookup)
    → (show_lab2 util s).screen
      ≡ s.screen
        ++ line_if
            (util.get_pid_by_name (codes "Lab2") s.pid).0
            (util.get_pid_by_name (codes "Lab2") s.pid).1
            (codes "Lab2")
unfolding show_lab2 look_up_pid
screen-show_lab2 util s =
    let r = util.get_pid_by_name (codes "Lab2") s.pid in
    screen-show_or_keep util r.1 (record s { s_name = codes "Lab2"; err_status = r.0; pid = r.1 })

pid-show_lab2 :
    (util : PidUtil) (s : Lookup)
    → (show_lab2 util s).pid ≡ (util.get_pid_by_name (codes "Lab2") s.pid).1
unfolding show_lab2 look_up_pid show_or_keep
pid-show_lab2 util s = elim (Bool-cases ((util.get_pid_by_name (codes "Lab2") s.pid).0 == 0)) [
  | inl e ↦ rw e refl
  | inr e ↦ rw e refl
]

pid-look_up_name : (util : PidUtil) (pid : ℤ) (s : Lookup) → (look_up_name util pid s).pid ≡ s.pid
unfolding look_up_name show_or_keep
pid-look_up_name util pid s = elim (Bool-cases ((util.get_name_by_pid pid s.s_name).0 == 0)) [
  | inl e ↦ rw e refl
  | inr e ↦ rw e refl
]

-- The last part: a line, or the one error that is printed.
unfoldable pub last_lines : (ℕ → Bytes) → ℕ × ℤ → List Bytes
last_lines message r =
    if r.0 == 0
    then pid_line r.1 (codes "Lab22") ∷ []
    else codes "The name does not exist." ∷ (codes "The error is as follows: " ++ message r.0) ∷ []

screen-show_lab22 :
    (util : PidUtil) (s : Lookup)
    → (show_lab22 util s).screen
      ≡ s.screen ++ last_lines util.get_error_msg (util.get_pid_by_name (codes "Lab22") s.pid)
unfolding show_lab22 look_up_pid last_lines
screen-show_lab22 util s = elim (Bool-cases ((util.get_pid_by_name (codes "Lab22") s.pid).0 == 0)) [
  | inl e ↦ rw e refl
  | inr e ↦ rw e (append_assoc s.screen (codes "The name does not exist." ∷ []) _)
]

-- The whole report, each call with what the one before left in its parameter.
unfoldable pub report_of : PidUtil → List Bytes
unfolding lines_of left_name listed line_if last_lines
report_of util =
    let init = codes "Name was not found" in
    let pids = listed (util.get_all_pids []) in
    let first = util.get_name_by_pid (pos 1) (left_name util init pids) in
    let lab2 = util.get_pid_by_name (codes "Lab2") (pos 1) in
    let lab22 = util.get_pid_by_name (codes "Lab22") lab2.1 in
    ((lines_of util init pids ++ line_if first.0 (pos 1) first.1)
      ++ line_if lab2.0 lab2.1 (codes "Lab2"))
    ++ last_lines util.get_error_msg lab22

-- The report shows, in this order, every process of the list whose name is found, process 1 and Lab2 when they
-- are found, and for Lab22 either its process or the message of its error; all other errors are passed over,
-- and a list that fails is empty. This is so for any functions in the place of those of pidUtil.h.
pub main_report : (util : PidUtil) → (main util).screen ≡ report_of util
unfolding main report_of
main_report util =
    let start : Lookup = record {
      err_status = 0;
      err_message = [];
      s_name = codes "Name was not found";
      pid = pos 0;
      screen = [];
    } in
    let pids = listed (util.get_all_pids []) in
    let s = list_all util start in
    let t = look_up_name util (pos 1) (record s { pid = pos 1 }) in
    let u = show_lab2 util t in
    let (shown, name) = list_all_lem util start in
    let pid : t.pid ≡ pos 1 = pid-look_up_name util (pos 1) (record s { pid = pos 1 }) in
    let lab2 : ℤ → ℕ × ℤ = util.get_pid_by_name (codes "Lab2") in
    let first : Bytes → ℕ × Bytes = util.get_name_by_pid (pos 1) in
    let last : ℤ → List Bytes =
      λ old. last_lines util.get_error_msg (util.get_pid_by_name (codes "Lab22") old) in
    let through_first : t.screen ≡ (
        lines_of util start.s_name pids
        ++ line_if (first (left_name util start.s_name pids)).0 (pos 1)
            (first (left_name util start.s_name pids)).1) =
      screen-look_up_name util (pos 1) (record s { pid = pos 1 })
      ∙ (λ i. shown i ++ line_if (first (name i)).0 (pos 1) (first (name i)).1) in
    let through_lab2 : u.screen
        ≡ (t.screen ++ line_if (lab2 (pos 1)).0 (lab2 (pos 1)).1 (codes "Lab2")) =
      screen-show_lab2 util t
      ∙ (λ i. t.screen ++ line_if (lab2 (pid i)).0 (lab2 (pid i)).1 (codes "Lab2")) in
    screen-show_lab22 util u
    ∙ (λ i. u.screen ++ last ((pid-show_lab2 util t ∙ λ j. (lab2 (pid j)).1) i))
    ∙ ap (λ (l : List Bytes). l ++ last (lab2 (pos 1)).1)
        (through_lab2
          ∙ ap (λ (l : List Bytes). l ++ line_if (lab2 (pos 1)).0 (lab2 (pos 1)).1 (codes "Lab2"))
              through_first)

-- ===== src/PidReport.antt =====
-- Labs/Lab 2/LabTwo_Watler.cpp: a report on processes through the functions of pidUtil.h.
-- That header is not part of the repository: its functions are a parameter, `PidUtil`, of which the program
-- only uses that an `ErrStatus` of 0 is success.
pub mod Reports
mod Tests
use dps912_unix.Base.{
  Bytes, List, [], codes, decimal, if◌then◌else◌, not, pos, ℤ, ◌++◌, ◌==◌, ◌∷◌, ℕ,
}

-- A function that fills a reference parameter returns its status and what it leaves there.
pub record PidUtil : Type 0 where
  pub get_all_pids : List ℤ → ℕ × List ℤ
  pub get_name_by_pid : ℤ → Bytes → ℕ × Bytes
  pub get_pid_by_name : Bytes → ℤ → ℕ × ℤ
  pub get_error_msg : ℕ → Bytes

pub record Lookup : Type 0 where
  pub err_status : ℕ
  pub err_message : Bytes
  pub s_name : Bytes
  pub pid : ℤ
  pub screen : List Bytes

abbrev pub pid_line : ℤ → Bytes → Bytes
pid_line pid name = codes "PID: " ++ (decimal pid ++ (codes " Name: " ++ name))

abbrev pub print : Bytes → Lookup → Lookup
print text s = record s { screen = s.screen ++ text ∷ [] }

-- What follows a call: the line of the process, or the error's message, which is only kept.
unfoldable pub show_or_keep : PidUtil → ℤ → Lookup → Lookup
show_or_keep util pid s =
    if s.err_status == 0
    then print (pid_line pid s.s_name) s
    else record s { err_message = util.get_error_msg s.err_status }

unfoldable pub look_up_name : PidUtil → ℤ → Lookup → Lookup
unfolding show_or_keep
look_up_name util pid s =
    let r = util.get_name_by_pid pid s.s_name in
    show_or_keep util pid (record s { err_status = r.0; s_name = r.1 })

-- The loop over `v_pid`.
unfoldable pub show_all : PidUtil → List ℤ → Lookup → Lookup
unfolding look_up_name
show_all util [] s = s
show_all util (j ∷ v_pid) s = show_all util v_pid (look_up_name util j s)

unfoldable pub list_all : PidUtil → Lookup → Lookup
unfolding show_all
list_all util s =
    let r = util.get_all_pids [] in
    let t = record s { err_status = r.0 } in if r.0 == 0 then show_all util r.1 t else t

unfoldable pub look_up_pid : PidUtil → Bytes → Lookup → Lookup
look_up_pid util name s =
    let r = util.get_pid_by_name name s.pid in
    record s { s_name = name; err_status = r.0; pid = r.1 }

unfoldable pub show_lab2 : PidUtil → Lookup → Lookup
unfolding look_up_pid show_or_keep
show_lab2 util s = let t = look_up_pid util (codes "Lab2") s in show_or_keep util t.pid t

-- The one error that is printed.
unfoldable pub show_lab22 : PidUtil → Lookup → Lookup
unfolding look_up_pid
show_lab22 util s =
    let t = look_up_pid util (codes "Lab22") s in
    if t.err_status == 0
    then print (pid_line t.pid t.s_name) t
    else print (codes "The error is as follows: " ++ util.get_error_msg t.err_status) (
        print (codes "The name does not exist.")
          (record t { err_message = util.get_error_msg t.err_status }))

unfoldable pub main : PidUtil → Lookup
unfolding list_all look_up_name show_lab2 show_lab22
main util =
    let s = list_all util (record {
      err_status = 0;
      err_message = [];
      s_name = codes "Name was not found";
      pid = pos 0;
      screen = [];
    }) in
    show_lab22 util (show_lab2 util (look_up_name util (pos 1) (record s { pid = pos 1 })))

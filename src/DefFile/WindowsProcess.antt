-- ===== src/DefFile/WindowsProcess.antt =====
-- `utf8_to_wide`, `open_file`, `remove_file` and `run` of
-- tools/def_file_generator/def_file_generator.c, in the Windows branch.
pub mod Laws
use hermetic_llvm.Windows.{wide_arguments, Host, Crt, ends_well, Execution}
use hermetic_llvm.Bytes.{Bytes, is_empty}
use hermetic_llvm.Prelude.{ℕ, false, Option, none, some, List, [], ◌==◌, if◌then◌else◌, Bool}

unfoldable pub utf8_to_wide : Host → Bytes → Option Bytes
utf8_to_wide host value =
    if is_empty value
    then some []
    else if host.wide_length value == 0
    then none
    else host.to_wide value

-- `_dup2(saved_out, _fileno(stdout)); _close(saved_out);`
unfoldable pub restore_out : (c : Crt) → ℕ → c.State → c.State
restore_out c saved s = c.close (c.dup2 s saved 1).1 saved

-- With the output redirected.
unfoldable pub run_redirected : (c : Crt) → Host → List Bytes → ℕ → c.State → Execution c.State
run_redirected c host argv saved s = elim (wide_arguments (utf8_to_wide host) argv) [
  | none ↦ record { value = false; left = restore_out c saved s; child = none }
  | some wide ↦ record {
    value = ends_well host (host.spawns wide (c.table s 0) (c.table s 1));
    left = restore_out c saved s;
    child = some (wide, c.table s 0, c.table s 1);
  }
]

-- `run`, with the descriptor of `stdout_file`.
unfoldable pub run : (c : Crt) → Host → List Bytes → ℕ → c.State → Execution c.State
run c host argv out s = elim (c.dup s 1).0 [
  | none ↦ record { value = false; left = (c.dup s 1).1; child = none }
  | some saved ↦
      let redirected = c.dup2 (c.dup s 1).1 out 1 in
      if redirected.0
      then run_redirected c host argv saved redirected.1
      else record { value = false; left = c.close redirected.1 saved; child = none }
]

-- `open_file`: `opens` is `_wfopen`, on a path and a mode.
unfoldable pub open_file : Host → (Bytes → Bytes → Option ℕ) → Bytes → Bytes → Option ℕ
open_file host opens path mode = elim (utf8_to_wide host path) [
  | none ↦ none
  | some wide_path ↦ elim (utf8_to_wide host mode) [
    | none ↦ none
    | some wide_mode ↦ opens wide_path wide_mode
  ]
]

-- `remove_file`: whether it returns 0; `removes` is `_wremove`.
unfoldable pub remove_wide_file : Host → (Bytes → Bool) → Bytes → Bool
remove_wide_file host removes path = elim (utf8_to_wide host path) [
  | none ↦ false
  | some wide_path ↦ removes wide_path
]

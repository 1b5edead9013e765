-- ===== src/Validator/WindowsProcess.antt =====
-- `run` of tools/internal/static_library_validator.c, in the Windows branch.
pub mod Laws
pub mod Restored
use hermetic_llvm.Windows.{wide_arguments, Crt, Host, Execution, ends_well}
use hermetic_llvm.Bytes.{Bytes, is_empty}
use hermetic_llvm.Prelude.{ℕ, Bool, true, false, Option, none, some, List, [], ◌==◌, if◌then◌else◌}

unfoldable pub utf8_to_wide : Host → Bytes → Option Bytes
utf8_to_wide host value =
    if is_empty value
    then some []
    else if host.wide_length value == 0
    then none
    else host.to_wide value

-- Both `_dup2` back, and both `_close`.
unfoldable pub restore : (c : Crt) → ℕ → ℕ → c.State → c.State
restore c saved_in saved_out s =
    let s1 = (c.dup2 s saved_in 0).1 in
    let s2 = (c.dup2 s1 saved_out 1).1 in c.close (c.close s2 saved_in) saved_out

-- `_dup2` of a file that may be NULL: whether it does not fail.
unfoldable pub redirect : (c : Crt) → Option ℕ → ℕ → c.State → Bool × c.State
redirect c none fd s = (true, s)
redirect c (some file) fd s = c.dup2 s file fd

-- With both streams redirected. Where an argument cannot be converted, the streams stay redirected.
unfoldable pub run_redirected : (c : Crt) → Host → List Bytes → ℕ → ℕ → c.State → Execution c.State
run_redirected c host argv saved_in saved_out s = elim (wide_arguments (utf8_to_wide host) argv) [
  | none ↦ record { value = false; left = s; child = none }
  | some wide ↦ record {
    value = ends_well host (host.spawns wide (c.table s 0) (c.table s 1));
    left = restore c saved_in saved_out s;
    child = some (wide, c.table s 0, c.table s 1);
  }
]

-- With both streams saved.
unfoldable pub run_saved :
    (c : Crt) → Host → List Bytes → Option ℕ → Option ℕ → ℕ → ℕ → c.State → Execution c.State
run_saved c host argv stdin_file stdout_file saved_in saved_out s =
    let input = redirect c stdin_file 0 s in
    let both = if input.0 then redirect c stdout_file 1 input.1 else input in
    if both.0
    then run_redirected c host argv saved_in saved_out both.1
    else record { value = false; left = restore c saved_in saved_out both.1; child = none }

-- `if (saved >= 0) _close(saved);`
abbrev pub close_saved : (c : Crt) → Option ℕ → c.State → c.State
close_saved c none s = s
close_saved c (some saved) s = c.close s saved

-- What follows the two calls of `_dup`.
unfoldable pub run_from :
    (c : Crt)
    → Host
    → List Bytes
    → Option ℕ
    → Option ℕ
    → Option ℕ
    → Option ℕ
    → c.State
    → Execution c.State
run_from c host argv stdin_file stdout_file (some saved_in) (some saved_out) s =
    run_saved c host argv stdin_file stdout_file saved_in saved_out s
run_from c host argv stdin_file stdout_file saved_in saved_out s = record {
  value = false;
  left = close_saved c saved_out (close_saved c saved_in s);
  child = none;
}

-- `run`, with the descriptors of the files that are not NULL.
unfoldable pub run :
    (c : Crt) → Host → List Bytes → Option ℕ → Option ℕ → c.State → Execution c.State
run c host argv stdin_file stdout_file s =
    let input = c.dup s 0 in
    let output = c.dup input.1 1 in
    run_from c host argv stdin_file stdout_file input.0 output.0 output.1

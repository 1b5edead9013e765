-- ===== src/Validator/Process.antt =====
-- `run` of tools/internal/static_library_validator.c, in its POSIX branch.
use hermetic_llvm.Processes.{Process, ChildStatus, exited, is_success}
use hermetic_llvm.Bytes.{Bytes}
use hermetic_llvm.Prelude.{◌≡◌, ◌↔◌, Bool, true, false, not, [], arith, if◌then◌else◌}

-- How the child ends, and what it has written to `stdout_file`. The results of both `dup2` are not
-- looked at: a program whose output is not redirected writes it elsewhere, and one whose input is not
-- redirected reads another one.
unfoldable pub run_child : Process → ChildStatus × Bytes
run_child p =
    if not p.execs
    then (exited 127, [])
    else (p.ending, if p.redirects_output then p.output else [])

-- The value that is returned, and what `stdout_file` holds.
unfoldable pub run : Process → Bool × Bytes
run p =
    if not p.forks
    then (false, [])
    else if not p.waits
    then (false, (run_child p).1)
    else (is_success (run_child p).0, (run_child p).1)

-- `run` returns 1 exactly where the process is forked and the program is executed and awaited and exits
-- with 0; then the file holds what the program has printed where its output was redirected, and
-- nothing where it was not.
pub run-exited :
    (p : Process) (text : Bytes)
    → (run p ≡ (true, text)) ↔ (
        (p.forks ≡ true)
        × (p.execs ≡ true)
        × (p.waits ≡ true)
        × (is_success p.ending ≡ true)
        × (text ≡ (if p.redirects_output then p.output else [])))
unfolding run run_child
run-exited p text = ground arith

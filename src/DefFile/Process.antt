-- ===== src/DefFile/Process.antt =====
-- `run` of tools/def_file_generator/def_file_generator.c, in its POSIX branch.
use hermetic_llvm.Processes.{Process, ChildStatus, exited, is_success}
use hermetic_llvm.Bytes.{Bytes}
use hermetic_llvm.Prelude.{◌≡◌, ◌↔◌, Bool, true, false, not, [], arith, if◌then◌else◌}

-- How the child ends, and what it has written to `stdout_file`.
unfoldable pub run_child : Process → ChildStatus × Bytes
run_child p =
    if not p.redirects_output
    then (exited 127, [])
    else if p.execs
    then (p.ending, p.output)
    else (exited 127, [])

-- The value that is returned, and what `stdout_file` holds.
unfoldable pub run : Process → Bool × Bytes
run p =
    if not p.forks
    then (false, [])
    else if not p.waits
    then (false, (run_child p).1)
    else (is_success (run_child p).0, (run_child p).1)

-- `run` returns 1 exactly where the process is forked, its output is redirected, the program is
-- executed and awaited and exits with 0; then the file holds what the program has printed.
pub run-whole_output :
    (p : Process) (text : Bytes)
    → (run p ≡ (true, text)) ↔ (
        (p.forks ≡ true)
        × (p.redirects_output ≡ true)
        × (p.execs ≡ true)
        × (p.waits ≡ true)
        × (is_success p.ending ≡ true)
        × (text ≡ p.output))
unfolding run run_child
run-whole_output p text = ground arith

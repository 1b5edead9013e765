-- ===== src/Tests/Link.antt =====
-- Runs of the link wrapper.
use hermetic_llvm.LinkWrapper.Interface.Scanned.{generate_elf_lem, MadeFrom}
use hermetic_llvm.LinkWrapper.Interface.Returns.{main_ends}
use hermetic_llvm.LinkWrapper.Interface.Ends.{is_waiting}
use hermetic_llvm.LinkWrapper.CopyFile.Laws.{copy_file_lem}
use hermetic_llvm.Bytes.{Bytes, codes, str_eq, has_byte, strcmp, c_string}
use hermetic_llvm.LinkWrapper.CopyFile.{
  Files, Streams, copy_file, close_both, closed_text, copy_chunk, copy_loop, put, read_chunk,
}
use hermetic_llvm.LinkWrapper.Versions.{
  scan_output, has_versioned_symbols, scan_library, scan_ended, versions_loop, fgets, nm_args,
  next_piece,
}
use hermetic_llvm.LinkWrapper.Interface.{
  main, Limits, Machine, make_dsym, make_interface, interface_wanted, generate_interface_library,
  generate_elf, elf_scanned, copy_action, ifs_args,
}
use hermetic_llvm.LinkWrapper.Interface.Laws.{Through, Scanned, commands, main-Through}
use hermetic_llvm.Processes.{exited}
use hermetic_llvm.LinkWrapper.{
  Result, run_process, World, System, returned, required_env, spawn, after, exit, interrupted,
  waiting, reaped, exit_status, child, wait_loop, run_process_with_stdout,
}
use hermetic_llvm.Prelude.{
  ℕ, ◌≡◌, refl, ◌≢◌, ◌⊎◌, Bool, true, false, Option, none, some, List, [], ◌∷◌, arith, ◌==◌,
  if◌then◌else◌,
}

-- An environment as the list of its names and values.
abbrev lookup : List (Bytes × Bytes) → Bytes → Option Bytes
lookup [] name = none
lookup ((n, v) ∷ env) name = let rest = lookup env name in if str_eq n name then some v else rest

abbrev elf_env : List (Bytes × Bytes)
elf_env =
    (codes "LLVM_CLANGXX", codes "c")
    ∷ (codes "LLVM_GENERATE_INTERFACE_LIBRARY", codes "yes")
    ∷ (codes "LLVM_INTERFACE_LIBRARY_FORMAT", codes "elf")
    ∷ (codes "LLVM_INTERFACE_LIBRARY_INPUT", codes "in")
    ∷ (codes "LLVM_INTERFACE_LIBRARY_OUTPUT", codes "out")
    ∷ (codes "LLVM_NM", codes "nm")
    ∷ (codes "LLVM_IFS", codes "ifs")
    ∷ []

-- Every program ends with a status, leaves the files alone and prints a text; `waitpid` is
-- interrupted once.
abbrev system : List (Bytes × Bytes) → ℕ → Bytes → System
system env status text = record {
  getenv = lookup env;
  forks = λ args w. true;
  execs = λ args w. true;
  redirects = λ args w. true;
  program = λ args w. record { ending = exited status; left = w.files; output = text };
  waits = λ args w n. if n == 0 then interrupted else reaped;
}

abbrev all_well : Streams
all_well = record {
  opens_source = λ p. true;
  opens_destination = λ p. true;
  read_fails = λ n. none;
  write_fails = λ n. none;
  closes_destination = none;
  closes_source = true;
  removes = λ p. true;
}

abbrev machine : Bytes → Machine
machine text = record {
  sys = system elf_env 0 text;
  streams = all_well;
  temporary = record { creates = true; rewinds = true; readable = none };
}

abbrev limits : Limits
limits = record { fuel = 2; chunk = 2; room = 3 }

abbrev one_file : Bytes → Option Bytes
one_file p = if str_eq p (codes "in") then some (codes "abc") else none

abbrev start : World
start = record { files = one_file; ran = [] }

-- The commands that a run has started, and its status.
abbrev ran_of : Result ℕ → ℕ × List (List Bytes)
ran_of (returned status w) = (status, w.ran)
ran_of (exit status w) = (status, w.ran)
ran_of (waiting w) = (1000, w.ran)

abbrev out_of : Result ℕ → Option Bytes
out_of (returned status w) = w.files (codes "out")
out_of _ = none

abbrev nm_command : List Bytes
nm_command =
    codes "nm"
    ∷ codes "--dynamic"
    ∷ codes "--defined-only"
    ∷ codes "--format=just-symbols"
    ∷ codes "in"
    ∷ []

copies_versioned :
    out_of (main limits (machine (codes "f\ng@V1\n")) (codes "-o" ∷ []) start) ≡ some (codes "abc")
unfolding main required_env run_process spawn make_dsym make_interface interface_wanted strcmp
    wait_loop exit_status child generate_interface_library generate_elf has_versioned_symbols
    scan_library run_process_with_stdout scan_ended scan_output versions_loop next_piece fgets
    has_byte c_string elf_scanned after nm_args copy_action close_both closed_text copy_chunk
    copy_file copy_loop put read_chunk
copies_versioned = refl

starts_ifs : ran_of (main limits (machine (codes "f\ng\n")) (codes "-o" ∷ []) start) ≡ (
  0,
  (codes "c" ∷ codes "-o" ∷ [])
      ∷ nm_command
      ∷ (codes "ifs" ∷ codes "in" ∷ codes "--output-elf" ∷ codes "out" ∷ [])
      ∷ [],
)
unfolding main required_env run_process spawn make_dsym make_interface interface_wanted strcmp
    wait_loop exit_status child generate_interface_library generate_elf has_versioned_symbols
    scan_library run_process_with_stdout scan_ended scan_output versions_loop next_piece fgets
    has_byte c_string elf_scanned after nm_args ifs_args
starts_ifs = refl

-- The `@` stands in a line that a read error cuts off.
loses_cut_line :
    scan_output 3 (record { creates = true; rewinds = true; readable = some 2 }) (codes "f@\n")
    ≡ some (1, false)
unfolding scan_output versions_loop next_piece fgets has_byte c_string
loses_cut_line = refl

copy_file_lem_example :
    (status : ℕ) × (left : Files) × (copy_file 2 all_well (codes "in") (codes "out") one_file
      ≡ some (status, left))
    × (((status ≡ 0) × (left (codes "out") ≡ some (codes "abc")))
        ⊎ ((status ≢ 0) × ((true ≡ false) ⊎ ((left (codes "out") ≡ none) ⊎ (left ≡ one_file)))))
    × ((p : Bytes) → (str_eq p (codes "out") ≡ true) ⊎ (left p ≡ one_file p))
unfolding strcmp
copy_file_lem_example =
    copy_file_lem 2 all_well (codes "in") (codes "out") one_file (omega arith) refl

main-Through_example :
    (versioned : Bool) × Through
      (commands (machine (codes "f\n")).sys (codes "-o" ∷ []) versioned)
      start
      (main limits (machine (codes "f\n")) (codes "-o" ∷ []) start)
    × Scanned limits
        (machine (codes "f\n"))
        versioned
        (main limits (machine (codes "f\n")) (codes "-o" ∷ []) start)
main-Through_example = main-Through limits (machine (codes "f\n")) (codes "-o" ∷ []) start

main_ends_example : is_waiting (main limits (machine (codes "f\n")) (codes "-o" ∷ []) start) ≡ false
main_ends_example =
    main_ends limits (machine (codes "f\n")) (codes "-o" ∷ []) start
      (λ args w. (1, omega arith, (λ i h. ground arith), (λ e. absurd (ground arith))))
      (omega arith) (omega arith)

-- The state in which llvm-nm has been started.
abbrev listed : World
listed = record { files = one_file; ran = nm_command ∷ [] }

generate_elf_lem_example :
    MadeFrom limits
      (machine (codes "f\ng@V1\n"))
      (codes "in")
      (codes "out")
      listed
      (generate_elf limits (machine (codes "f\ng@V1\n")) (codes "in") (codes "out") start)
      true
unfolding has_byte strcmp spawn run_process_with_stdout nm_args wait_loop after child exit_status
generate_elf_lem_example =
    generate_elf_lem limits (machine (codes "f\ng@V1\n")) 2 (codes "in") (codes "out") (codes "nm")
      (codes "f\ng@V1\n") start listed refl (omega arith) refl refl refl refl refl refl
      (refl, (refl, (refl, (refl, (refl, (refl, (refl, tt)))))))

-- ===== src/HeaderParser/Windows.antt =====
-- `main` of tools/internal/header_parser.c, in the Windows branch: the compiler runs as a child.
use hermetic_llvm.Bytes.{Bytes, codes}
use hermetic_llvm.HeaderParser.{main, Outside, variable, execute, Outcome, became, ended}
use hermetic_llvm.Prelude.{
  ℕ, ◌≡◌, refl, inl, inr, false, not, Option, none, some, List, [], ◌∷◌, if◌then◌else◌, Bool-cases,
  Option-cases,
}

-- From the touched file on. `spawns` is `_spawnv` with `_P_WAIT`: the status of the child, or `none`
-- for -1.
unfoldable pub run_compiler :
    Outside → (List Bytes → Option ℕ) → Bytes → List Bytes → List Bytes × ℕ
run_compiler out spawns path args = elim (variable out (codes "LLVM_CLANGXX")) [
  | none ↦ (path ∷ [], 2)
  | some clang_path ↦
      (path ∷ [], elim (spawns (clang_path ∷ args)) [ none ↦ 2 | some status ↦ status ])
]

-- The files that were touched, and the status.
unfoldable pub windows_main : Outside → (List Bytes → Option ℕ) → List Bytes → List Bytes × ℕ
windows_main out spawns args = elim (variable out (codes "PARSE_HEADER")) [
  | none ↦ ([], 2)
  | some path ↦
      if not (out.opens path)
      then ([], 2)
      else if not (out.closes path)
      then (path ∷ [], 2)
      else run_compiler out spawns path args
]

-- The status of a process in the other branch, where what it becomes ends as the child would.
abbrev pub ending_status : (List Bytes → Option ℕ) → Outcome → List Bytes × ℕ
ending_status spawns (touched, became command) =
    (touched, elim (spawns command) [ none ↦ 2 | some status ↦ status ])
ending_status spawns (touched, ended status) = (touched, status)

-- Where a command that is executed is one that the other system can start, both branches touch the
-- same files and end with the same status: that of the compiler, or 2.
windows_main_lem :
    (out : Outside) (spawns : List Bytes → Option ℕ) (args : List Bytes)
    → ((command : List Bytes) → out.execs command ≡ false → spawns command ≡ none)
    → windows_main out spawns args ≡ ending_status spawns (main out args)
unfolding windows_main main run_compiler execute
windows_main_lem out spawns args same = elim (Option-cases (variable out (codes "PARSE_HEADER"))) [
  | inl unset ↦ rw (windows_main, main, unset) refl
  | inr (path, set) ↦ elim (Bool-cases (out.opens path)) [
    | inr shut ↦ rw (windows_main, main, set, shut) refl
    | inl opened ↦ elim (Bool-cases (out.closes path)) [
      | inr stuck ↦ rw (windows_main, main, set, opened, stuck) refl
      | inl closed ↦
          rw (windows_main, main, set, opened, closed)
            (elim (Option-cases (variable out (codes "LLVM_CLANGXX"))) [
              | inl unset ↦ rw (run_compiler, execute, unset) refl
              | inr (clang_path, found) ↦ elim (Bool-cases (out.execs (clang_path ∷ args))) [
                | inl runs ↦ rw (run_compiler, execute, found, runs) refl
                | inr fails ↦
                    rw (run_compiler, execute, found, fails, same (clang_path ∷ args) fails) refl
              ]
            ])
    ]
  ]
]

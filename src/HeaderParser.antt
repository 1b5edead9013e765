-- ===== src/HeaderParser.antt =====
-- tools/internal/header_parser.c: it touches the file that stands for a parsed header and becomes the
-- compiler.
pub mod Windows
use hermetic_llvm.Bytes.{Bytes, is_empty, codes}
use hermetic_llvm.Prelude.{
  ℕ, ◌≡◌, refl, inl, inr, Bool, not, Option, none, some, List, true, [], ◌∷◌, if◌then◌else◌,
  Bool-cases, Option-cases, false, ◌⊎◌,
}

-- What the system answers: the environment, whether the touched file opens and closes, and whether
-- a command is executed.
pub record Outside : Type 0 where
  pub getenv : Bytes → Option Bytes
  pub opens : Bytes → Bool
  pub closes : Bytes → Bool
  pub execs : List Bytes → Bool

-- How `main` ends: the process has become a command, or it has ended with a status.
pub data Ending : Type 0 where
  became : List Bytes → Ending
  ended : ℕ → Ending

-- What has happened: the files that were touched, and the ending.
abbrev pub Outcome : Type 0
Outcome = List Bytes × Ending

-- A variable that is set and not empty.
abbrev pub variable : Outside → Bytes → Option Bytes
variable out name = elim (out.getenv name) [
  | none ↦ none
  | some value ↦ if is_empty value then none else some value
]

-- From the touched file on.
unfoldable pub execute : Outside → Bytes → List Bytes → Outcome
execute out path args = elim (variable out (codes "LLVM_CLANGXX")) [
  | none ↦ (path ∷ [], ended 2)
  | some clang_path ↦
      (path ∷ [], if out.execs (clang_path ∷ args) then became (clang_path ∷ args) else ended 2)
]

-- On the arguments behind the program's name.
unfoldable pub main : Outside → List Bytes → Outcome
main out args = elim (variable out (codes "PARSE_HEADER")) [
  | none ↦ ([], ended 2)
  | some path ↦
      if not (out.opens path)
      then ([], ended 2)
      else if not (out.closes path)
      then (path ∷ [], ended 2)
      else execute out path args
]

-- Why a run has failed, on the path of PARSE_HEADER.
abbrev pub FailsAt : Outside → List Bytes → Bytes → Type 0
FailsAt out args path =
    (out.opens path ≡ false)
    ⊎ ((out.closes path ≡ false)
        ⊎ ((variable out (codes "LLVM_CLANGXX") ≡ none)
            ⊎ ((clang_path : Bytes) × (variable out (codes "LLVM_CLANGXX") ≡ some clang_path)
                × (out.execs (clang_path ∷ args) ≡ false))))

-- A process that becomes a command becomes the compiler of the environment with the arguments of the
-- program, and the file of the environment was opened and closed before; else the status is 2, for a reason.
abbrev pub Parsed : Outside → List Bytes → Outcome → Type 0
Parsed out args (touched, became command) =
    (clang_path : Bytes) × (path : Bytes) × (variable out (codes "LLVM_CLANGXX") ≡ some clang_path)
    × (variable out (codes "PARSE_HEADER") ≡ some path)
    × (command ≡ clang_path ∷ args)
    × (touched ≡ path ∷ [])
    × (out.opens path ≡ true)
    × (out.closes path ≡ true)
    × (out.execs command ≡ true)
Parsed out args (touched, ended status) =
    (status ≡ 2)
    × ((variable out (codes "PARSE_HEADER") ≡ none)
        ⊎ ((path : Bytes) × (variable out (codes "PARSE_HEADER") ≡ some path)
            × FailsAt out args path))

execute-Parsed :
    (out : Outside) (path : Bytes) (args : List Bytes)
    → variable out (codes "PARSE_HEADER") ≡ some path
    → out.opens path ≡ true
    → out.closes path ≡ true
    → Parsed out args (execute out path args)
unfolding execute
execute-Parsed out path args set opened closed =
    elim (Option-cases (variable out (codes "LLVM_CLANGXX"))) [
      | inl unset ↦ rw (execute, unset) (refl, inr (path, set, inr (inr (inl unset))))
      | inr (clang_path, found) ↦ elim (Bool-cases (out.execs (clang_path ∷ args))) [
        | inl runs ↦
            rw (execute, found, runs)
              (clang_path, path, found, set, refl, refl, opened, closed, runs)
        | inr fails ↦
            rw (execute, found, fails)
              (refl, inr (path, set, inr (inr (inr (clang_path, found, fails)))))
      ]
    ]

-- A run of the program either has opened and closed the file that PARSE_HEADER names and then becomes
-- the compiler that LLVM_CLANGXX names, with the program's own arguments, which is executed; or it ends with status 2, and then a
-- variable is unset or empty, or the file does not open or close, or the compiler is not executed.
pub main-Parsed : (out : Outside) (args : List Bytes) → Parsed out args (main out args)
unfolding main
main-Parsed out args = elim (Option-cases (variable out (codes "PARSE_HEADER"))) [
  | inl unset ↦ rw (main, unset) (refl, inl unset)
  | inr (path, set) ↦ elim (Bool-cases (out.opens path)) [
    | inr shut ↦ rw (main, set, shut) (refl, inr (path, set, inl shut))
    | inl opened ↦ elim (Bool-cases (out.closes path)) [
      | inr stuck ↦ rw (main, set, opened, stuck) (refl, inr (path, set, inr (inl stuck)))
      | inl closed ↦ rw (main, set, opened, closed) (execute-Parsed out path args set opened closed)
    ]
  ]
]

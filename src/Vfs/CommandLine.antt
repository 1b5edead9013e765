-- ===== src/Vfs/CommandLine.antt =====
-- `main` of tools/case_insensitive_vfs/main.c.
pub mod Laws
pub mod Success
pub mod Written
use hermetic_llvm.Vfs.Overlay.{
  RootSort, Rendered, FileSystem, rendered, failed, case_insensitive_vfs_generate, exhausted,
}
use hermetic_llvm.Bytes.{Bytes, str_eq, codes}
use hermetic_llvm.Vfs.Entries.{Qsort}
use hermetic_llvm.Prelude.{
  ℕ, ◌+◌, Bool, not, Option, none, some, List, [], ◌∷◌, ◌++◌, if◌then◌else◌, take,
}

-- `roots` and `output_path`.
pub record Arguments : Type 0 where
  pub roots : List Bytes
  pub output_path : Option Bytes

-- The loop over `argv`, from an index on; `none` where `main` returns 2 in it.
unfoldable pub parse_arguments : List Bytes → Arguments → Option Arguments
parse_arguments [] args = some args
parse_arguments (option ∷ []) args = none
parse_arguments (option ∷ value ∷ rest) args =
    let more = parse_arguments rest (record args { roots = args.roots ++ value ∷ [] }) in
    let placed = parse_arguments rest (record args { output_path = some value }) in
    if str_eq option (codes "-root")
    then more
    else if str_eq option (codes "-output")
    then placed
    else none

abbrev pub no_arguments : Arguments
no_arguments = record { roots = []; output_path = none }

-- What the system answers to the file that is written: whether it opens, and behind how many bytes
-- a failing `fwrite`, or a failing `fclose`, stops.
pub record OutputFile : Type 0 where
  pub opens : Bytes → Bool
  pub stops : Option ℕ
  pub closes : Option ℕ

abbrev pub Files : Type 0
Files = Bytes → Option Bytes

-- The status, and the files that are left.
abbrev pub Verdict : Type 0
Verdict = ℕ × Files

-- The files with a text at a path.
abbrev pub put : Files → Bytes → Bytes → Files
put files path text p = if str_eq p path then some text else files p

unfoldable pub write_overlay : OutputFile → Files → Bytes → Bytes → Verdict
write_overlay out files path overlay = if not (out.opens path) then (1, files) else elim out.stops [
  | some n ↦ (1, put files path (take n overlay))
  | none ↦ elim out.closes [
    | some n ↦ (1, put files path (take n overlay))
    | none ↦ (0, put files path overlay)
  ]
]

-- From the overlay on.
unfoldable pub finish_overlay : OutputFile → Files → Bytes → Rendered → Option Verdict
finish_overlay out files path (rendered overlay) = some (write_overlay out files path overlay)
finish_overlay out files path (failed _) = some (1, files)
finish_overlay out files path exhausted = none

-- On the arguments behind the program's name; `none` where the fuel for the depth has run out.
unfoldable pub main :
    ℕ → Qsort → RootSort → FileSystem → OutputFile → Files → List Bytes → Option Verdict
main fuel q roots_sort fs out files argv = elim (parse_arguments argv no_arguments) [
  | none ↦ some (2, files)
  | some args ↦ elim args.output_path [
    | none ↦ some (2, files)
    | some path ↦
        finish_overlay out files path
          (case_insensitive_vfs_generate fuel q roots_sort fs args.roots)
  ]
]

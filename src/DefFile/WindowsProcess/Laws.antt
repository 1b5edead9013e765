-- ===== src/DefFile/WindowsProcess/Laws.antt =====
-- The descriptors through `run` of tools/def_file_generator/def_file_generator.c, in the Windows
-- branch.
use hermetic_llvm.Windows.{Crt, Execution}
use hermetic_llvm.Bytes.{Bytes}
use hermetic_llvm.Windows.Tables.{BackOr}
use hermetic_llvm.Prelude.{ℕ, ◌≡◌, ◌⊎◌, Option, none, some, List}

-- A call has left the descriptors of a table, or could not give the standard output back; and its
-- child, if there is one, writes to a file.
abbrev pub Restores : (c : Crt) → (ℕ → Option ℕ) → ℕ → Execution c.State → Type 0
Restores c t file r =
    BackOr c t file r.left
    × ((r.child ≡ none)
        ⊎ ((args : List Bytes) × (input : Option ℕ) × (r.child ≡ some (args, input, some file))))

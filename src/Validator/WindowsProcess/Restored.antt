-- ===== src/Validator/WindowsProcess/Restored.antt =====
-- The descriptors that `run` of tools/internal/static_library_validator.c leaves in the Windows
-- branch.
use hermetic_llvm.Validator.WindowsProcess.Laws.{busy, GivesBack}
use hermetic_llvm.Bytes.{Bytes}
use hermetic_llvm.Windows.Tables.{HasTable}
use hermetic_llvm.Windows.{Crt, Execution}
use hermetic_llvm.Prelude.{ℕ, ◌≡◌, ◌⊎◌, false, Option, none, some, List}

-- A call has left the descriptors of a table, or has given both streams back from their copies as far
-- as that did not fail; and its child, if there is one, has the given streams.
abbrev pub RestoresBoth :
    (c : Crt) → (ℕ → Option ℕ) → Option ℕ → Option ℕ → Execution c.State → Type 0
RestoresBoth c t input output r =
    (HasTable c r.left t
      ⊎ ((saved_in : ℕ) × (saved_out : ℕ) × (s : c.State) × GivesBack c t saved_in saved_out s
            r.left))
    × ((r.child ≡ none) ⊎ ((args : List Bytes) × (r.child ≡ some (args, input, output))))

-- A call has returned 0 with the two streams redirected and their copies open.
abbrev pub Leaks :
    (c : Crt) → (ℕ → Option ℕ) → ℕ → ℕ → Option ℕ → Option ℕ → Execution c.State → Type 0
Leaks c t saved_in saved_out input output r =
    (r.value ≡ false)
    × (r.child ≡ none)
    × HasTable c r.left (busy t saved_in saved_out input output)

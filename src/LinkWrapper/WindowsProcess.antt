-- ===== src/LinkWrapper/WindowsProcess.antt =====
-- `run_process` and `run_process_with_stdout` of tools/internal/link_wrapper.c, in the Windows
-- branches.
use hermetic_llvm.Windows.Tables.{HasTable, BackOr}
use hermetic_llvm.Bytes.{Bytes}
use hermetic_llvm.Windows.{Crt, Host}
use hermetic_llvm.Prelude.{ℕ, ◌≡◌, ◌⊎◌, Option, none, some, List, if◌then◌else◌}

-- The child takes the standard streams of the state.
unfoldable pub run_process : (c : Crt) → Host → List Bytes → c.State → ℕ
run_process c host args s = elim (host.runs args (c.table s 0) (c.table s 1)) [
  | none ↦ 127
  | some status ↦ status
]

-- With the output redirected: the status, and the state that is left.
unfoldable pub run_redirected : (c : Crt) → Host → List Bytes → ℕ → c.State → ℕ × c.State
run_redirected c host args saved s =
    let back = c.dup2 s saved 1 in
    (if back.0 then run_process c host args s else 127, c.close back.1 saved)

unfoldable pub run_process_with_stdout : (c : Crt) → Host → List Bytes → ℕ → c.State → ℕ × c.State
run_process_with_stdout c host args output s = elim (c.dup s 1).0 [
  | none ↦ (127, (c.dup s 1).1)
  | some saved ↦
      let redirected = c.dup2 (c.dup s 1).1 output 1 in
      if redirected.0
      then run_redirected c host args saved redirected.1
      else (127, c.close redirected.1 saved)
]

-- A call has failed with 127 or given the status of a child that writes to a file.
abbrev pub FailsOrGives : Host → List Bytes → ℕ → ℕ → Type 0
FailsOrGives host args file status =
    (status ≡ 127)
    ⊎ ((input : Option ℕ) × (given : ℕ) × (host.runs args input (some file) ≡ some given)
        × (status ≡ given))

-- A call has left the descriptors of a table, with the status of its child or 127; or it could not give
-- the standard output back and has failed with 127.
abbrev pub RunsWith : (c : Crt) → Host → List Bytes → (ℕ → Option ℕ) → ℕ → ℕ × c.State → Type 0
RunsWith c host args t file r =
    (HasTable c r.1 t × FailsOrGives host args file r.0) ⊎ ((r.0 ≡ 127) × BackOr c t file r.1)

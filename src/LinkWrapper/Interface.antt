-- ===== src/LinkWrapper/Interface.antt =====
-- `generate_interface_library` and `main` of tools/internal/link_wrapper.c.
pub mod Started
pub mod Dsym
pub mod Format
pub mod Laws
pub mod Scanned
pub mod Ends
pub mod Returns
use hermetic_llvm.LinkWrapper.Versions.{Temporary, has_versioned_symbols}
use hermetic_llvm.LinkWrapper.CopyFile.{Streams, copy_file}
use hermetic_llvm.Bytes.{Bytes, codes, str_eq}
use hermetic_llvm.LinkWrapper.{
  ◌>>=◌, Run, ◌>>=◌, System, set_env, pure, waiting, returned, run_process, required_env,
}
use hermetic_llvm.Prelude.{ℕ, Bool, true, false, none, some, List, [], ◌∷◌, ◌==◌, if◌then◌else◌}

-- All that answers a run: the system, the streams of `copy_file`, and the temporary file.
pub record Machine : Type 0 where
  pub sys : System
  pub streams : Streams
  pub temporary : Temporary

-- The fuel of `waitpid`, and the sizes of the two buffers.
pub record Limits : Type 0 where
  pub fuel : ℕ
  pub chunk : ℕ
  pub room : ℕ

unfoldable pub copy_action : Limits → Machine → Bytes → Bytes → Run ℕ
copy_action l m source_path destination_path w =
    elim (copy_file l.chunk m.streams source_path destination_path w.files) [
      | none ↦ waiting w
      | some (status, left) ↦ returned status (record w { files = left })
    ]

unfoldable pub ifs_args : Bytes → Bytes → Bytes → List Bytes
ifs_args llvm_ifs input_path output_path =
    llvm_ifs ∷ input_path ∷ codes "--output-elf" ∷ output_path ∷ []

unfoldable pub readtapi_args : Bytes → Bytes → Bytes → List Bytes
readtapi_args llvm_readtapi input_path output_path =
    llvm_readtapi ∷ codes "-stubify" ∷ input_path ∷ codes "-o" ∷ output_path ∷ []

-- What follows the scan: a library with versioned symbols is copied.
unfoldable pub elf_scanned : Limits → Machine → Bytes → Bytes → Bool → Run ℕ
elf_scanned l m input_path output_path true = copy_action l m input_path output_path
elf_scanned l m input_path output_path false = do
  llvm_ifs ← required_env m.sys (codes "LLVM_IFS")
  run_process l.fuel m.sys (ifs_args llvm_ifs input_path output_path)

-- For the format `elf`.
unfoldable pub generate_elf : Limits → Machine → Bytes → Bytes → Run ℕ
generate_elf l m input_path output_path = do
  scanned ← has_versioned_symbols l.fuel l.room m.sys m.temporary input_path
  if scanned.0 == 0 then elf_scanned l m input_path output_path scanned.1 else pure scanned.0

-- For the format `tbd`.
unfoldable pub generate_tbd : Limits → Machine → Bytes → Bytes → Run ℕ
generate_tbd l m input_path output_path = do
  llvm_readtapi ← required_env m.sys (codes "LLVM_READTAPI")
  run_process l.fuel m.sys (readtapi_args llvm_readtapi input_path output_path)

unfoldable pub generate_interface_library : Limits → Machine → Bytes → Bytes → Bytes → Run ℕ
generate_interface_library l m format input_path output_path =
    if str_eq format (codes "elf")
    then generate_elf l m input_path output_path
    else if str_eq format (codes "tbd")
    then generate_tbd l m input_path output_path
    else pure 1

unfoldable pub dsym_args : Bytes → Bytes → Bytes → List Bytes
dsym_args dsymutil dsym_path link_output = dsymutil ∷ codes "-o" ∷ dsym_path ∷ link_output ∷ []

unfoldable pub strip_args : Bytes → Bytes → List Bytes
strip_args strip link_output = strip ∷ codes "-S" ∷ link_output ∷ []

-- `if (status != 0) return status;` between two commands.
abbrev pub unless_failed : Run ℕ → Run ℕ → Run ℕ
unless_failed first next = first >>= λ status. if status == 0 then next else pure status

-- The stripping of the linked file, where it is asked for.
unfoldable pub strip_output : Limits → Machine → Bytes → Run ℕ
strip_output l m link_output = do
  strip ← required_env m.sys (codes "LLVM_STRIP")
  run_process l.fuel m.sys (strip_args strip link_output)

-- The stripping, where it is asked for.
unfoldable pub strip_wanted : Limits → Machine → Bytes → Run ℕ
strip_wanted l m link_output = elim (set_env m.sys (codes "LLVM_STRIP_DEBUG_SYMBOLS")) [
  | none ↦ pure 0
  | some _ ↦ strip_output l m link_output
]

-- The debug symbols at a path.
unfoldable pub dsym_at : Limits → Machine → Bytes → Run ℕ
dsym_at l m dsym_path = do
  link_output ← required_env m.sys (codes "LLVM_LINK_OUTPUT")
  dsymutil ← required_env m.sys (codes "LLVM_DSYMUTIL")
  unless_failed (run_process l.fuel m.sys (dsym_args dsymutil dsym_path link_output))
      (strip_wanted l m link_output)

-- The debug symbols, where a path for them is set.
unfoldable pub make_dsym : Limits → Machine → Run ℕ
make_dsym l m = elim (set_env m.sys (codes "LLVM_DSYM_PATH")) [
  | none ↦ pure 0
  | some dsym_path ↦ dsym_at l m dsym_path
]

-- `generate_interface` is set to `yes`.
abbrev pub wants_interface : System → Bool
wants_interface sys = elim (sys.getenv (codes "LLVM_GENERATE_INTERFACE_LIBRARY")) [
  | none ↦ false
  | some value ↦ str_eq value (codes "yes")
]

-- The interface library, and where it is asked for.
unfoldable pub interface_wanted : Limits → Machine → Run ℕ
interface_wanted l m = do
  format ← required_env m.sys (codes "LLVM_INTERFACE_LIBRARY_FORMAT")
  input ← required_env m.sys (codes "LLVM_INTERFACE_LIBRARY_INPUT")
  output ← required_env m.sys (codes "LLVM_INTERFACE_LIBRARY_OUTPUT")
  generate_interface_library l m format input output

unfoldable pub make_interface : Limits → Machine → Run ℕ
make_interface l m = if wants_interface m.sys then interface_wanted l m else pure 0

-- `main`, on the arguments behind the program's name.
unfoldable pub main : Limits → Machine → List Bytes → Run ℕ
main l m args = do
  clangxx ← required_env m.sys (codes "LLVM_CLANGXX")
  unless_failed (run_process l.fuel m.sys (clangxx ∷ args))
      (unless_failed (make_dsym l m) (make_interface l m))

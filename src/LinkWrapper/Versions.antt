-- ===== src/LinkWrapper/Versions.antt =====
-- `has_versioned_symbols` of tools/internal/link_wrapper.c.
pub mod Laws
use hermetic_llvm.LinkWrapper.{
  ◌>>=◌, required_env, World, Result, exit, Run, System, run_process_with_stdout, waiting, returned,
}
use hermetic_llvm.Bytes.{Bytes, codes, is_empty, has_byte, c_string}
use hermetic_llvm.Prelude.{
  ℕ, zero, suc, Bool, true, false, not, ◌&&◌, Option, none, some, List, [], ◌∷◌, ltb, ◌==◌,
  if◌then◌else◌, length, take,
}

-- `fgets` with room for `n` bytes: it stops behind a newline.
unfoldable pub fgets : ℕ → Bytes → Bytes × Bytes
fgets zero text = ([], text)
fgets (suc n) [] = ([], [])
fgets (suc n) (c ∷ text) =
    let (line, rest) = fgets n text in if c == b'\n' then (c ∷ [], text) else (c ∷ line, rest)

-- Whether a piece has ended before its room was full and no newline was met.
abbrev pub cut_off : ℕ → Bytes → Bytes → Bool
cut_off room piece rest = is_empty rest && ltb (length piece) room && not (has_byte piece b'\n')

-- One call of `fgets`: where a read fails behind the text, a piece that it cuts off is lost.
unfoldable pub next_piece : Bool → ℕ → Bytes → Bytes × Bytes
next_piece failing room text =
    let (piece, rest) = fgets room text in
    if failing && cut_off room piece rest then ([], []) else (piece, rest)

-- The loop: whether a piece has an `@`, and `none` at the end of the fuel.
unfoldable pub versions_loop : ℕ → Bool → ℕ → Bytes → Option Bool
versions_loop zero failing room text = none
versions_loop (suc fuel) failing room text =
    let (piece, rest) = next_piece failing room text in
    let others = versions_loop fuel failing room rest in
    if is_empty piece
    then some false
    else if has_byte (c_string piece) b'@'
    then some true
    else others

-- What the system answers beside: whether `tmpfile` and `fseek` succeed, and how many bytes of the
-- output can be read before a read fails.
pub record Temporary : Type 0 where
  pub creates : Bool
  pub rewinds : Bool
  pub readable : Option ℕ

-- `sizeof(buffer) - 1`.
abbrev pub piece_size : ℕ
piece_size = 4095

unfoldable pub nm_args : Bytes → Bytes → List Bytes
nm_args llvm_nm library_path =
    llvm_nm
    ∷ codes "--dynamic"
    ∷ codes "--defined-only"
    ∷ codes "--format=just-symbols"
    ∷ library_path
    ∷ []

-- The part of the output that can be read.
abbrev pub read_part : Option ℕ → Bytes → Bytes
read_part none output = output
read_part (some n) output = take n output

abbrev pub fails : Option ℕ → Bool
fails none = false
fails (some _) = true

-- The status and `*result` from the rewound output; `none` at the end of the fuel.
unfoldable pub scan_output : ℕ → Temporary → Bytes → Option (ℕ × Bool)
scan_output room t output =
    let text = read_part t.readable output in
    if not t.rewinds
    then some (1, false)
    else elim (versions_loop (suc (length text)) (fails t.readable) room text) [
      | none ↦ none
      | some true ↦ some (0, true)
      | some false ↦ some (if fails t.readable then 1 else 0, false)
    ]

-- From the end of llvm-nm on.
unfoldable pub scan_ended : ℕ → Temporary → ℕ × Bytes → World → Result (ℕ × Bool)
scan_ended room t (status, output) w =
    if not (status == 0)
    then returned (status, false) w
    else elim (scan_output room t output) [ none ↦ waiting w | some r ↦ returned r w ]

-- From the temporary file on.
unfoldable pub scan_library : ℕ → ℕ → System → Temporary → Bytes → Bytes → World → Result (ℕ × Bool)
scan_library fuel room sys t library_path llvm_nm w =
    if not t.creates
    then returned (1, false) w
    else elim (run_process_with_stdout fuel sys (nm_args llvm_nm library_path) w) [
      | returned ended w' ↦ scan_ended room t ended w'
      | exit n w' ↦ exit n w'
      | waiting w' ↦ waiting w'
    ]

unfoldable pub has_versioned_symbols : ℕ → ℕ → System → Temporary → Bytes → Run (ℕ × Bool)
has_versioned_symbols fuel room sys t library_path = do
  llvm_nm ← required_env sys (codes "LLVM_NM")
  scan_library fuel room sys t library_path llvm_nm

-- ===== src/DefFile/Lines.antt =====
-- `read_line` and `trim` of tools/def_file_generator/def_file_generator.c. A file that is open for
-- reading is the list of the bytes to come.
pub mod Loop
use hermetic_llvm.Bytes.{Bytes, is_empty, skip_space, c_string, isspace}
use hermetic_llvm.Prelude.{
  ℕ, zero, suc, Bool, true, false, ◌&&◌, Option, none, some, List, [], ◌∷◌, ◌==◌, if◌then◌else◌,
  length,
}

-- The loop over `fgetc`: the line, the bytes behind it, and whether the end of the file ended it.
pub read_bytes : Bytes → Bytes × Bytes × Bool
read_bytes [] = ([], [], true)
read_bytes (c ∷ cs) =
    let (line, rest, at_end) = read_bytes cs in
    if c == b'\n' then ([], cs, false) else (c ∷ line, rest, at_end)

-- `none` is the null pointer at the end of the file. The callers read the line as a C string.
unfoldable pub read_line : Bytes → Option (Bytes × Bytes)
unfolding read_bytes
read_line file =
    let (line, rest, at_end) = read_bytes file in
    if at_end && is_empty line then none else some (c_string line, rest)

-- `while ((line = read_line(file)) != NULL)`: the lines that the body sees, in order.
pub read_loop : ℕ → Bytes → List Bytes
read_loop zero file = []
read_loop (suc fuel) file = elim (read_line file) [
  | none ↦ []
  | some (line, rest) ↦ line ∷ read_loop fuel rest
]

-- Every call takes a byte at least, or ends the loop.
unfoldable pub read_lines : Bytes → List Bytes
unfolding read_loop
read_lines file = read_loop (suc (length file)) file

-- The loop of `trim` from the end of the string.
unfoldable pub trim_end : Bytes → Bytes
trim_end [] = []
trim_end (c ∷ cs) = let kept = trim_end cs in if is_empty kept && isspace c then [] else c ∷ kept

unfoldable pub trim : Bytes → Bytes
unfolding trim_end
trim value = trim_end (skip_space value)

-- ===== src/DefFile/NmOutput/Line.antt =====
-- `parse_nm_output` on one line.
use hermetic_llvm.DefFile.NmOutput.Separator.{find_separator_last, find_separator_absent}
use hermetic_llvm.DefFile.Lines.{trim, trim_end}
use hermetic_llvm.Bytes.{span_word, Bytes, skip_space, contains, isspace, is_empty}
use hermetic_llvm.DefFile.NmOutput.{parse_line, parse_entry, separator, entry, blank, malformed}
use hermetic_llvm.Prelude.{
  ℕ, ◌≡◌, refl, Bool, true, false, ◌&&◌, [], ◌∷◌, ◌++◌, arith, if◌then◌else◌, All,
}

span_word-space :
    (symbol : Bytes) (sp : ℕ) (rest : Bytes)
    → All (λ c. isspace c ≡ false) symbol
    → isspace sp ≡ true
    → span_word (symbol ++ sp ∷ rest) ≡ (symbol, sp ∷ rest)
unfolding span_word
span_word-space [] sp rest h k = ground arith
span_word-space (c ∷ symbol) sp rest h k = ground (arith, span_word-space symbol sp rest h.1 k)

parse_entry_lem :
    (symbol : Bytes) (sp type : ℕ) (rest : Bytes)
    → All (λ c. isspace c ≡ false) symbol
    → isspace sp ≡ true
    → isspace type ≡ false
    → parse_entry (symbol ++ sp ∷ type ∷ rest) ≡ entry symbol type
unfolding parse_entry skip_space
parse_entry_lem symbol sp type rest h k t =
    ground (arith, span_word-space symbol sp (type ∷ rest) h k)

-- Whether a string is white space throughout.
abbrev pub all_space : Bytes → Bool
all_space [] = true
all_space (c ∷ cs) = isspace c && all_space cs

trim_end-empty : (s : Bytes) → is_empty (trim_end s) ≡ all_space s
unfolding trim_end
trim_end-empty [] = refl
trim_end-empty (c ∷ s) = ground (arith, trim_end-empty s)

pub trim-empty : (s : Bytes) → is_empty (trim s) ≡ all_space s
unfolding trim skip_space
trim-empty [] = refl
trim-empty (c ∷ s) = ground (arith, trim-empty s, trim_end-empty (c ∷ s))

-- A line `<file>: <symbol> <type>...`, of any file name, where the symbol has no white space and
-- no other separator follows, is read as that symbol with that type.
parse_line_entry :
    (file symbol : Bytes) (sp type : ℕ) (rest : Bytes)
    → All (λ c. isspace c ≡ false) symbol
    → isspace sp ≡ true
    → isspace type ≡ false
    → contains (symbol ++ sp ∷ type ∷ rest) separator ≡ false
    → parse_line (file ++ (separator ++ (symbol ++ sp ∷ type ∷ rest))) ≡ entry symbol type
unfolding parse_line
parse_line_entry file symbol sp type rest h k t c =
    rw (find_separator_last file (symbol ++ sp ∷ type ∷ rest) c, parse_line)
      (parse_entry_lem symbol sp type rest h k t)

-- A line with no separator is skipped where it is white space, and is malformed otherwise.
pub parse_line_no_separator :
    (line : Bytes)
    → contains line separator ≡ false
    → parse_line line ≡ (if all_space line then blank else malformed)
unfolding parse_line
parse_line_no_separator line h = rw (find_separator_absent line h, trim-empty line, parse_line) refl

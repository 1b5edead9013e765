-- ===== src/DefFile/NmOutput.antt =====
-- `parse_nm_output` of tools/def_file_generator/def_file_generator.c: the lines that
-- `llvm-nm -A --format=posix` writes, `<file>: <symbol> <type> ...`.
pub mod Separator
pub mod Line
pub mod Malformed
pub mod Exports
pub mod Members
use hermetic_llvm.DefFile.Lines.{read_lines, trim}
use hermetic_llvm.DefFile.StringSet.{StringList, string_set_insert}
use hermetic_llvm.DefFile.Symbols.{SymbolSets, add_gnu_nm_symbol, add_nm_symbol}
use hermetic_llvm.Bytes.{Bytes, strstr, codes, span_word, isupper, is_empty, skip_space, has_prefix}
use hermetic_llvm.Prelude.{
  ℕ, zero, suc, Bool, not, ◌&&◌, Option, none, some, List, [], ◌∷◌, ◌==◌, if◌then◌else◌, length,
  drop,
}

-- `enum abi`.
pub data Abi : Type 0 where
  msvc gnu : Abi

abbrev pub separator : Bytes
separator = codes ": "

-- `while ((candidate = strstr(candidate, ": ")) != NULL)`: what stands behind the last separator.
pub find_separator : ℕ → Bytes → Option Bytes → Option Bytes
find_separator zero candidate found = found
find_separator (suc fuel) candidate found = elim (strstr candidate separator) [
  | none ↦ found
  | some (_, at) ↦ find_separator fuel (drop 2 at) (some (drop 2 at))
]

-- What one line says.
pub data NmLine : Type 0 where
  blank malformed : NmLine
  entry : Bytes → ℕ → NmLine

-- The byte at a pointer, which is zero at the end of the string.
abbrev pub byte_at : Bytes → ℕ
byte_at [] = 0
byte_at (c ∷ _) = c

-- From the symbol on: the symbol ends at white space, and the type is the next byte that is none.
pub parse_entry : Bytes → NmLine
parse_entry text =
    let (symbol, space) = span_word text in
    elim space [ [] ↦ malformed | _ ∷ after ↦ entry symbol (byte_at (skip_space after)) ]

unfoldable pub parse_line : Bytes → NmLine
unfolding find_separator parse_entry
parse_line line = elim (find_separator (suc (length line)) line none) [
  | none ↦ if is_empty (trim line) then blank else malformed
  | some text ↦ parse_entry text
]

-- The sets that the loop fills.
pub record NmState : Type 0 where
  pub sets : SymbolSets
  pub import_pointers : StringList

abbrev pub imp_prefix : Bytes
imp_prefix = codes "__imp_"

-- A defined `__imp_` pointer is noted under the name that it imports.
abbrev pub is_import_pointer : Bytes → ℕ → Bool
is_import_pointer symbol type = isupper type && not (type == b'U') && has_prefix symbol imp_prefix

unfoldable pub add_entry : Abi → NmState → Bytes → ℕ → NmState
add_entry gnu state symbol type = record {
  sets = add_gnu_nm_symbol state.sets symbol type;
  import_pointers =
      if is_import_pointer symbol type
      then string_set_insert state.import_pointers (drop (length imp_prefix) symbol)
      else state.import_pointers;
}
add_entry msvc state symbol type = record state { sets = add_nm_symbol state.sets symbol type }

-- The loop over the lines; `none` is the failure at a malformed line.
unfoldable pub parse_nm_lines : Abi → NmState → List Bytes → Option NmState
unfolding add_entry
parse_nm_lines abi state [] = some state
parse_nm_lines abi state (line ∷ lines) = elim (parse_line line) [
  | malformed ↦ none
  | blank ↦ parse_nm_lines abi state lines
  | entry symbol type ↦ parse_nm_lines abi (add_entry abi state symbol type) lines
]

-- `broken` is `ferror(output)` after the last read.
unfoldable pub parse_nm_output : Abi → NmState → Bytes → Bool → Option NmState
parse_nm_output abi state output broken =
    let parsed = parse_nm_lines abi state (read_lines output) in if broken then none else parsed

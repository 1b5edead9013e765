-- ===== src/DefFile/Definition.antt =====
-- Module-definition files in tools/def_file_generator/def_file_generator.c: how one is recognised,
-- merged into the sets, and printed from them.
pub mod RoundTrip
pub mod Valid
use hermetic_llvm.DefFile.Lines.{read_lines}
use hermetic_llvm.DefFile.Symbols.{SymbolSets, insert_data, insert_symbol}
use hermetic_llvm.Bytes.{Bytes, strrchr, tolower, is_empty, codes, has_prefix, strstr}
use hermetic_llvm.Prelude.{
  ◌+◌, Bool, false, ◌&&◌, ◌||◌, Option, none, some, List, [], ◌∷◌, ◌++◌, ◌==◌, if◌then◌else◌, drop,
}

-- `tolower` of the bytes of the extension `.def`, or of the whole name where it has no dot.
pub is_def : Bytes → Bool
is_def (d ∷ e ∷ f ∷ []) = tolower d == b'd' && tolower e == b'e' && tolower f == b'f'
is_def _ = false

unfoldable pub is_definition_file : Bytes → Bool
unfolding is_def
is_definition_file filename = elim (strrchr filename b'.') [
  | none ↦ is_def filename
  | some (_, extension) ↦ is_def (drop 1 extension)
]

-- `while (*symbol == ' ' || *symbol == '\t') ++symbol`.
unfoldable pub skip_blanks : Bytes → Bytes
skip_blanks [] = []
skip_blanks (c ∷ cs) = if c == b' ' || c == b'\t' then skip_blanks cs else c ∷ cs

abbrev pub data_mark : Bytes
data_mark = codes " \t DATA"

unfoldable pub merge_line : SymbolSets → Bytes → SymbolSets
merge_line sets line =
    if has_prefix line (codes "LIBRARY") || has_prefix line (codes "EXPORTS")
    then sets
    else (let symbol = skip_blanks line in
        elim (strstr symbol data_mark) [
          | some (name, _) ↦ insert_data sets name
          | none ↦ if is_empty symbol then sets else insert_symbol sets symbol
        ])

pub merge_lines : SymbolSets → List Bytes → SymbolSets
merge_lines sets [] = sets
merge_lines sets (line ∷ lines) = merge_lines (merge_line sets line) lines

-- `file` is what `open_file` gives, and `closes` whether `fclose` then succeeds.
unfoldable pub merge_definition_file : SymbolSets → Option Bytes → Bool → Option SymbolSets
unfolding merge_lines
merge_definition_file sets file closes = elim file [
  | none ↦ none
  | some content ↦ if closes then some (merge_lines sets (read_lines content)) else none
]

unfoldable pub data_lines : List Bytes → Bytes
data_lines [] = []
data_lines (symbol ∷ symbols) = b'\t' ∷ (symbol ++ (codes " \t DATA\n" ++ data_lines symbols))

unfoldable pub symbol_lines : List Bytes → Bytes
symbol_lines [] = []
symbol_lines (symbol ∷ symbols) = b'\t' ∷ (symbol ++ b'\n' ∷ symbol_lines symbols)

abbrev pub library_line : Bytes → Bytes → Bytes
library_line dll_name rest =
    if is_empty dll_name then rest else codes "LIBRARY " ++ (dll_name ++ b'\n' ∷ rest)

-- The bytes that `write_def_file` prints where no call of `fprintf` fails.
unfoldable pub def_file_text : SymbolSets → Bytes → Bytes
unfolding data_lines symbol_lines
def_file_text sets dll_name = library_line dll_name (
    codes "EXPORTS \n" ++ (data_lines sets.data_symbols.values ++ symbol_lines sets.symbols.values))

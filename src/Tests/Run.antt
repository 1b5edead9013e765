-- ===== src/Tests/Run.antt =====
-- A run of the generator on one object that defines one symbol.
use hermetic_llvm.DefFile.StringSet.{
  string_set_contains, string_set_insert, string_list_append, empty_list,
}
use hermetic_llvm.Bytes.{
  isspace, isupper, isdigit, skip_space, span_word, has_byte, strstr, strrchr, c_string, contains,
  has_prefix, has_suffix, codes, Bytes, str_eq, strcmp,
}
use hermetic_llvm.DefFile.Lines.{read_lines, read_line, trim, trim_end}
use hermetic_llvm.DefFile.NmOutput.{parse_nm_output, parse_nm_lines, parse_line, add_entry, msvc}
use hermetic_llvm.DefFile.Symbols.{
  add_nm_symbol, nm_skipped, normalize_stdcall, managed_symbol, remove_imported_symbols, AreValid,
  SymbolSets, no_symbols,
}
use hermetic_llvm.DefFile.Generator.{
  parse_abi, expand_inputs, add_input, write_def_file, required_env, run_nm, response_text, main,
  World, Outside, nm_symbols, discover_object_symbols, left_text, print_pieces, def_file_pieces,
  status, remove_file, put, ok,
}
use hermetic_llvm.DefFile.Definition.{is_definition_file, def_file_text}
use hermetic_llvm.DefFile.Generator.Discover.{Discovered, discover_object_symbols_lem}
use hermetic_llvm.DefFile.Generator.Frame.{world_of, main-other}
use hermetic_llvm.DefFile.Generator.Printed.{IsPrinted, main-IsPrinted}
use hermetic_llvm.Prelude.{
  ◌≡◌, refl, ◌⊎◌, true, false, Option, none, some, List, [], ◌∷◌, arith, if◌then◌else◌,
}

abbrev environment : Bytes → Option Bytes
environment name = if str_eq name (codes "LLVM_NM") then some (codes "nm") else none

abbrev machine : Outside
machine = record {
  getenv = environment;
  opens = λ p. true;
  closes = λ p. true;
  removes = λ p. true;
  prints = λ path before piece. none;
  stops = λ path. none;
  temporary = true;
  nm = λ args files. some (codes "a: f T\n", false);
  response_path = codes "r";
}

abbrev disk : World
disk = record { files = λ p. none }

abbrev arguments : List Bytes
arguments = codes "o" ∷ codes "d" ∷ codes "a" ∷ []

abbrev exports : SymbolSets
exports = record {
  symbols = record { values = codes "f" ∷ []; capacity = 32 };
  data_symbols = empty_list;
}

abbrev listed : World
listed = put disk (codes "r") (codes "\"a\"\n")

abbrev scanned : World
scanned = remove_file machine listed (codes "r")

abbrev written : World
written = put scanned (codes "o") (def_file_text exports (codes "d"))

nm_reads : nm_symbols machine msvc no_symbols (codes "nm") listed ≡ some (some exports)
unfolding nm_symbols strcmp isspace isupper isdigit skip_space span_word has_byte strstr strrchr
    c_string contains has_prefix has_suffix read_lines read_line trim trim_end parse_nm_output
    parse_nm_lines parse_line add_entry string_set_insert string_list_append add_nm_symbol
    nm_skipped normalize_stdcall managed_symbol remove_imported_symbols string_set_contains
nm_reads = refl

discovers :
    discover_object_symbols machine msvc no_symbols (codes "a" ∷ []) disk ≡ ok exports scanned
unfolding discover_object_symbols run_nm response_text left_text required_env has_byte strcmp
discovers = rw (nm_reads) refl

finishes : main machine arguments disk ≡ status 0 written
unfolding main parse_abi expand_inputs add_input is_definition_file string_list_append strcmp
    strrchr trim trim_end skip_space isspace write_def_file print_pieces def_file_pieces left_text
    def_file_text
finishes = rw (discovers) refl

nothing-AreValid : AreValid no_symbols
nothing-AreValid = record {
  symbols_valid = record { room = omega arith; sorted = tt };
  data_valid = record { room = omega arith; sorted = tt };
}

main-IsPrinted_example : IsPrinted machine (codes "o") (codes "d") (codes "a" ∷ []) disk written
main-IsPrinted_example =
    main-IsPrinted machine (codes "o") (codes "d") (codes "a") [] disk written
      (λ before piece. refl) finishes

main-other_example :
    (world_of (main machine arguments disk)).files (codes "x") ≡ disk.files (codes "x")
main-other_example =
    main-other machine (codes "o") (codes "d" ∷ codes "a" ∷ []) disk (codes "x")
      (unfold strcmp in refl) (unfold strcmp in refl)

discover_object_symbols_lem_example :
    ((codes "a" ∷ [] ≡ []) × (exports ≡ no_symbols) × (scanned ≡ disk))
    ⊎ Discovered machine msvc no_symbols (codes "a" ∷ []) disk exports scanned
discover_object_symbols_lem_example =
    discover_object_symbols_lem machine msvc no_symbols nothing-AreValid (codes "a" ∷ []) disk
      exports scanned discovers

-- ===== src/Tests/Nm.antt =====
-- Lines of llvm-nm, read by the generator.
use hermetic_llvm.DefFile.StringSet.{string_set_insert, empty_list}
use hermetic_llvm.Bytes.{
  has_suffix, strcmp, isupper, skip_space, span_word, c_string, strstr, Bytes, codes, isspace,
}
use hermetic_llvm.DefFile.Symbols.{gnu_excluded_symbol, gnu_skipped, add_gnu_nm_symbol, no_symbols}
use hermetic_llvm.DefFile.Lines.{trim, read_line, read_lines}
use hermetic_llvm.DefFile.NmOutput.{parse_nm_lines, parse_nm_output, parse_line, NmState, gnu}
use hermetic_llvm.DefFile.NmOutput.Members.{
  any_line, lists_code, lists_data, lists_pointer, parse_nm_output_members,
}
use hermetic_llvm.DefFile.NmOutput.Malformed.{FirstMalformed, WellFormed, parse_nm_output-cases}
use hermetic_llvm.DefFile.StringSet.Order.{elem}
use hermetic_llvm.Prelude.{◌≡◌, refl, false, true, All, ◌⊎◌, none, ◌||◌, some, [], ◌∷◌}

abbrev listing : Bytes
listing = codes "a: f T\n\na: g U\n"

abbrev start : NmState
start = record { sets = no_symbols; import_pointers = empty_list }

abbrev finish : NmState
finish = record {
  sets = record {
    symbols = record { values = codes "f" ∷ []; capacity = 32 };
    data_symbols = empty_list;
  };
  import_pointers = empty_list;
}

reads_listing : parse_nm_output gnu start listing false ≡ some finish
unfolding parse_nm_output parse_nm_lines read_lines read_line parse_line strstr c_string span_word
    isspace trim skip_space add_gnu_nm_symbol isupper gnu_skipped gnu_excluded_symbol strcmp
    has_suffix string_set_insert
reads_listing = refl

parse_nm_output_members_example :
    (elem (codes "f") finish.sets.symbols.values ≡ (
      elem (codes "f") start.sets.symbols.values
      || any_line (lists_code gnu (codes "f")) (read_lines listing)))
    × (elem (codes "f") finish.sets.data_symbols.values ≡ (
        elem (codes "f") start.sets.data_symbols.values
        || any_line (lists_data gnu (codes "f")) (read_lines listing)))
    × (elem (codes "f") finish.import_pointers.values ≡ (
        elem (codes "f") start.import_pointers.values
        || any_line (lists_pointer gnu (codes "f")) (read_lines listing)))
parse_nm_output_members_example =
    parse_nm_output_members gnu start finish listing false reads_listing (codes "f")

parse_nm_output-cases_example :
    ((parse_nm_output gnu start listing false ≡ none)
      × ((false ≡ true) ⊎ FirstMalformed (read_lines listing)))
    ⊎ ((result : NmState) × (parse_nm_output gnu start listing false ≡ some result)
        × (false ≡ false)
        × All WellFormed (read_lines listing))
parse_nm_output-cases_example = parse_nm_output-cases gnu start listing false

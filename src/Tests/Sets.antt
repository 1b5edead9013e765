-- ===== src/Tests/Sets.antt =====
-- The sorted sets of the generator.
use hermetic_llvm.DefFile.StringSet.{
  string_set_remove_at, string_set_contains, string_set_insert, StringList, empty_list,
}
use hermetic_llvm.DefFile.StringSet.Contains.{string_set_contains-elem}
use hermetic_llvm.DefFile.Symbols.Imports.{remove_imported_symbols_lem}
use hermetic_llvm.DefFile.StringSet.Order.{elem}
use hermetic_llvm.DefFile.Definition.RoundTrip.{IsPrintable, merge-def_file_text}
use hermetic_llvm.DefFile.StringSet.Insert.{IsValid, string_set_insert-IsValid, contains-insert}
use hermetic_llvm.DefFile.Symbols.{AreValid, remove_imported_symbols, SymbolSets, no_symbols}
use hermetic_llvm.Bytes.{isspace, Bytes, codes, str_eq, strcmp}
use hermetic_llvm.DefFile.Definition.{def_file_text, merge_definition_file}
use hermetic_llvm.Prelude.{◌≡◌, refl, true, not, ◌&&◌, ◌||◌, some, [], ◌∷◌, arith}

abbrev two : StringList
two = record { values = codes "alpha" ∷ codes "gamma" ∷ []; capacity = 32 }

two-IsValid : IsValid two
two-IsValid = record { room = omega arith; sorted = ((unfold strcmp in refl, tt), (tt, tt)) }

insert_middle :
    (string_set_insert two (codes "beta")).values
    ≡ codes "alpha" ∷ codes "beta" ∷ codes "gamma" ∷ []
unfolding string_set_insert strcmp
insert_middle = refl

insert_again : string_set_insert two (codes "gamma") ≡ two
unfolding string_set_insert strcmp
insert_again = refl

finds_last : string_set_contains two (codes "gamma") ≡ some true
unfolding string_set_contains strcmp
finds_last = refl

string_set_contains-elem_example :
    string_set_contains two (codes "beta") ≡ some (elem (codes "beta") two.values)
string_set_contains-elem_example = string_set_contains-elem two (codes "beta") two-IsValid.sorted

contains-insert_example :
    string_set_contains (string_set_insert two (codes "beta")) (codes "beta")
    ≡ some (str_eq (codes "beta") (codes "beta") || elem (codes "beta") two.values)
contains-insert_example = contains-insert two (codes "beta") (codes "beta") two-IsValid

string_set_insert-IsValid_example : IsValid (string_set_insert two (codes "beta"))
string_set_insert-IsValid_example = string_set_insert-IsValid two (codes "beta") two-IsValid

abbrev both : SymbolSets
both = record { symbols = two; data_symbols = empty_list }

both-AreValid : AreValid both
both-AreValid = record {
  symbols_valid = two-IsValid;
  data_valid = record { room = omega arith; sorted = tt };
}

remove_imported_symbols_lem_example :
    (result : SymbolSets) × (remove_imported_symbols both two ≡ some result)
    × AreValid result
    × ((w : Bytes)
        → elem w result.symbols.values ≡ (elem w both.symbols.values && not (elem w two.values)))
    × ((w : Bytes)
        → elem w result.data_symbols.values
          ≡ (elem w both.data_symbols.values && not (elem w two.values)))
remove_imported_symbols_lem_example = remove_imported_symbols_lem both two both-AreValid two-IsValid

removes_all :
    remove_imported_symbols both two
    ≡ some (record { symbols = record { values = []; capacity = 32 }; data_symbols = empty_list })
unfolding remove_imported_symbols string_set_contains strcmp string_set_remove_at
removes_all = refl

both-IsPrintable : IsPrintable both
unfolding isspace
both-IsPrintable = record { valid = both-AreValid; symbol_names = ground arith; data_names = tt }

merge-def_file_text_example :
    (result : SymbolSets) × (merge_definition_file no_symbols
        (some (def_file_text both (codes "my.dll")))
        true
      ≡ some result)
    × (result.symbols.values ≡ both.symbols.values)
    × (result.data_symbols.values ≡ both.data_symbols.values)
merge-def_file_text_example =
    merge-def_file_text both (codes "my.dll") both-IsPrintable (ground arith)

prints :
    def_file_text
      (record { symbols = two; data_symbols = record { values = codes "d" ∷ []; capacity = 32 } })
      (codes "my.dll")
    ≡ codes "LIBRARY my.dll\nEXPORTS \n\td \t DATA\n\talpha\n\tgamma\n"
unfolding def_file_text
prints = refl

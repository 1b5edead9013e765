-- ===== src/DefFile/Symbols.antt =====
-- `struct symbol_sets` of tools/def_file_generator/def_file_generator.c and the rules by which a
-- symbol of an object enters them: bindexplib's for MSVC, lld's auto-export for MinGW.
pub mod Normalize
pub mod Rules
pub mod Imports
use hermetic_llvm.DefFile.StringSet.Insert.{IsValid}
use hermetic_llvm.Prelude.{
  ℕ, zero, suc, Bool, true, false, not, ◌&&◌, ◌||◌, Option, none, some, List, [], ◌∷◌, ◌==◌,
  if◌then◌else◌, length, get_elem?, drop, any_of,
}
use hermetic_llvm.Bytes.{
  Bytes, codes, is_empty, str_eq, strrchr, isdigit, contains, has_prefix, isupper, has_suffix,
  has_byte,
}
use hermetic_llvm.DefFile.StringSet.{
  empty_list, StringList, string_set_insert, string_set_contains, string_set_remove_at,
}

-- The symbols that are exported as code, and those that are exported as data.
pub record SymbolSets : Type 0 where
  pub symbols : StringList
  pub data_symbols : StringList

abbrev pub no_symbols : SymbolSets
no_symbols = record { symbols = empty_list; data_symbols = empty_list }

-- Both sets are valid.
pub record AreValid (sets : SymbolSets) : Type 0 where
  pub symbols_valid : IsValid sets.symbols
  pub data_valid : IsValid sets.data_symbols

abbrev pub insert_symbol : SymbolSets → Bytes → SymbolSets
insert_symbol sets symbol = record sets { symbols = string_set_insert sets.symbols symbol }

abbrev pub insert_data : SymbolSets → Bytes → SymbolSets
insert_data sets symbol = record sets { data_symbols = string_set_insert sets.data_symbols symbol }

pub all_digits : Bytes → Bool
all_digits [] = true
all_digits (c ∷ cs) = isdigit c && all_digits cs

-- What stands behind the last `@`: at least one digit, and nothing else.
abbrev pub is_stack_size : Bytes → Bool
is_stack_size [] = false
is_stack_size (_ ∷ []) = false
is_stack_size (_ ∷ digits) = all_digits digits

unfoldable pub normalize_stdcall : Bytes → Bytes
unfolding all_digits
normalize_stdcall [] = []
normalize_stdcall (c ∷ cs) =
    if c == b'_'
    then elim (strrchr (c ∷ cs) b'@') [
      | none ↦ c ∷ cs
      | some (before, at) ↦ if is_stack_size at then drop 1 before else c ∷ cs
    ]
    else c ∷ cs

unfoldable pub managed_symbol : Bytes → Bool
managed_symbol symbol =
    str_eq symbol (codes "__t2m")
    || str_eq symbol (codes "__m2mep")
    || str_eq symbol (codes "__mep")
    || contains symbol (codes "$$F")
    || contains symbol (codes "$$J")

abbrev pub gnu_excluded_symbols : List Bytes
gnu_excluded_symbols =
    codes "__NULL_IMPORT_DESCRIPTOR"
    ∷ codes "_pei386_runtime_relocator"
    ∷ codes "do_pseudo_reloc"
    ∷ codes "impure_ptr"
    ∷ codes "_impure_ptr"
    ∷ codes "_fmode"
    ∷ codes "environ"
    ∷ codes "__dso_handle"
    ∷ codes "_load_config_used"
    ∷ codes "DllMain"
    ∷ codes "DllEntryPoint"
    ∷ codes "DllMainCRTStartup"
    ∷ codes "__chpe_metadata"
    ∷ []

abbrev pub gnu_excluded_prefixes : List Bytes
gnu_excluded_prefixes =
    codes "__imp_"
    ∷ codes "__IMPORT_DESCRIPTOR_"
    ∷ codes "__nm_"
    ∷ codes "__rtti_"
    ∷ codes "__builtin_"
    ∷ codes "."
    ∷ codes "__profc_"
    ∷ codes "__profd_"
    ∷ codes "__profvp_"
    ∷ codes "_head_"
    ∷ codes "__os_arm64x_"
    ∷ []

abbrev pub gnu_excluded_suffixes : List Bytes
gnu_excluded_suffixes = codes "_iname" ∷ codes "_NULL_THUNK_DATA" ∷ []

unfoldable pub gnu_excluded_symbol : Bytes → Bool
gnu_excluded_symbol symbol =
    any_of (str_eq symbol) gnu_excluded_symbols
    || any_of (has_prefix symbol) gnu_excluded_prefixes
    || any_of (has_suffix symbol) gnu_excluded_suffixes

-- The test of `add_gnu_nm_symbol` that leaves a symbol out.
unfoldable pub gnu_skipped : Bytes → ℕ → Bool
gnu_skipped symbol type =
    is_empty symbol
    || not (isupper type)
    || type == b'U'
    || type == b'V'
    || type == b'W'
    || type == b'I'
    || type == b'N'
    || gnu_excluded_symbol symbol

unfoldable pub add_gnu_nm_symbol : SymbolSets → Bytes → ℕ → SymbolSets
add_gnu_nm_symbol sets symbol type =
    if gnu_skipped symbol type
    then sets
    else if type == b'T'
    then insert_symbol sets symbol
    else insert_data sets symbol

-- The test of `add_nm_symbol` that leaves a symbol out.
unfoldable pub nm_skipped : Bytes → ℕ → Bool
nm_skipped symbol type =
    is_empty symbol
    || not (isupper type)
    || type == b'U'
    || type == b'V'
    || type == b'W'
    || type == b'C'
    || (type == b'R' && not (has_prefix symbol (codes "??_7")))
    || has_prefix symbol (codes "??_G")
    || has_prefix symbol (codes "??_E")
    || has_byte symbol b'.'
    || managed_symbol symbol
    || contains symbol (codes "$ientry_thunk")
    || contains symbol (codes "$entry_thunk")
    || contains symbol (codes "$iexit_thunk")
    || contains symbol (codes "$exit_thunk")

abbrev pub is_data_type : ℕ → Bool
is_data_type type = type == b'B' || type == b'D' || type == b'G' || type == b'S'

unfoldable pub add_nm_symbol : SymbolSets → Bytes → ℕ → SymbolSets
add_nm_symbol sets raw type =
    let symbol = normalize_stdcall raw in
    if nm_skipped symbol type
    then sets
    else if is_data_type type
    then insert_data sets symbol
    else insert_symbol sets symbol

-- The `while` over one list. `none` is a fault of the search, or the end of the fuel.
pub remove_loop : ℕ → StringList → StringList → ℕ → Option StringList
remove_loop zero import_pointers list index = none
remove_loop (suc fuel) import_pointers list index = elim (get_elem? list.values index) [
  | none ↦ some list
  | some value ↦ elim (string_set_contains import_pointers value) [
    | none ↦ none
    | some true ↦ remove_loop fuel import_pointers (string_set_remove_at list index) index
    | some false ↦ remove_loop fuel import_pointers list (suc index)
  ]
]

-- Every round removes a value or passes one.
abbrev pub remove_imported : StringList → StringList → Option StringList
remove_imported import_pointers list = remove_loop (suc (length list.values)) import_pointers list 0

unfoldable pub remove_imported_symbols : SymbolSets → StringList → Option SymbolSets
unfolding remove_loop
remove_imported_symbols sets import_pointers = elim (remove_imported import_pointers sets.symbols) [
  | none ↦ none
  | some symbols' ↦ elim (remove_imported import_pointers sets.data_symbols) [
    | none ↦ none
    | some data' ↦ some (record { symbols = symbols'; data_symbols = data' })
  ]
]

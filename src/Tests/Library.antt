-- ===== src/Tests/Library.antt =====
-- Static libraries with and without duplicate symbols, sorted by the insertion sort.
use hermetic_llvm.Validator.{
  dup_block, memcmp, span_symbol, entry_line, memchr, compare_symbol_entries, Qsort, parse_nm_line,
  SymbolEntry, parse_lines, Ascends, should_keep_type, split_lines, entry_lines,
}
use hermetic_llvm.Validator.Main.{
  sorted_entries, nm_args, main, Outside, required_env, print_duplicates,
}
use hermetic_llvm.Tests.Sort.{
  insert, AscendsBy, insertion_sort, insertion_sort-perm, insertion_sort-AscendsBy,
}
use hermetic_llvm.Bytes.{
  span_word, skip_space, isupper, Bytes, codes, is_empty, str_eq, strcmp, strcmp-swap, strcmp-eq,
  str_lt_trans, isspace,
}
use hermetic_llvm.Validator.Lines.{parse_nm_line_lem}
use hermetic_llvm.Validator.Order.{compare_symbol_entries-strcmp}
use Prim.Native.Nat.{Ordering}
use hermetic_llvm.Prelude.{
  ◌≡◌, refl, ◌≢◌, true, Option, none, some, List, [], ◌∷◌, ◌++◌, arith, if◌then◌else◌,
}

total :
    (x y : SymbolEntry)
    → compare_symbol_entries x y ≡ Ordering.gt
    → compare_symbol_entries y x ≢ Ordering.gt
total x y e k = ground (
  arith,
  compare_symbol_entries-strcmp x y,
  compare_symbol_entries-strcmp y x,
  strcmp-swap x.symbol y.symbol,
)

at_most_trans :
    (x y z : SymbolEntry)
    → compare_symbol_entries x y ≢ Ordering.gt
    → compare_symbol_entries y z ≢ Ordering.gt
    → compare_symbol_entries x z ≢ Ordering.gt
at_most_trans x y z h k e = ground (
  arith,
  compare_symbol_entries-strcmp x y,
  compare_symbol_entries-strcmp y z,
  compare_symbol_entries-strcmp x z,
  str_lt_trans x.symbol y.symbol z.symbol,
  strcmp-eq x.symbol y.symbol,
  strcmp-eq y.symbol z.symbol,
)

AscendsBy-Ascends : (l : List SymbolEntry) → AscendsBy compare_symbol_entries l → Ascends l
AscendsBy-Ascends [] h = tt
AscendsBy-Ascends (e ∷ l) h = (h.0, AscendsBy-Ascends l h.1)

abbrev by_insertion : Qsort
by_insertion = record {
  sort = insertion_sort compare_symbol_entries;
  sort-perm = insertion_sort-perm compare_symbol_entries;
  sort-ascends = λ l.
      AscendsBy-Ascends _ (insertion_sort-AscendsBy compare_symbol_entries total at_most_trans l);
}

abbrev environment : Bytes → Option Bytes
environment name = if str_eq name (codes "LLVM_NM") then some (codes "nm") else some (codes "f")

-- The tools: `nm` prints an entry for each of two objects, and the filter prints its input.
abbrev machine : Outside
machine = record {
  getenv = environment;
  run = λ args input.
      if is_empty input then some (codes "l[a]: f T 0\nl[b]: f T 0\n") else some input;
  writes = λ text. true;
  opens = λ p. true;
  closes = λ p. true;
  copy_file = λ text. (text, true);
}

reads_entry :
    parse_nm_line (codes "lib.a[a.o]: f T 0 0")
    ≡ some (record { symbol = codes "f"; object = codes "a.o"; type = b'T' })
unfolding parse_nm_line memchr skip_space isspace span_word should_keep_type isupper
reads_entry = refl

skips_undefined : parse_nm_line (codes "lib.a[a.o]: f U") ≡ none
unfolding parse_nm_line memchr skip_space isspace span_word
skips_undefined = refl

reports : main by_insertion machine (codes "l" ∷ codes "s" ∷ []) ≡ record {
  status = 1;
  touched = [];
  printed = codes "Duplicate symbols found in l:\na: T f\nb: T f\n";
}
unfolding main required_env strcmp dup_block sorted_entries insertion_sort parse_lines split_lines
    parse_nm_line memchr skip_space isspace span_word should_keep_type isupper insert
    compare_symbol_entries memcmp nm_args span_symbol entry_lines entry_line print_duplicates
reports = refl

compare_symbol_entries-strcmp_example :
    compare_symbol_entries
      (record { symbol = codes "f"; object = []; type = b'T' })
      (record { symbol = codes "fa"; object = []; type = b'T' })
    ≡ strcmp (codes "f") (codes "fa")
compare_symbol_entries-strcmp_example =
    compare_symbol_entries-strcmp (record { symbol = codes "f"; object = []; type = b'T' })
      (record { symbol = codes "fa"; object = []; type = b'T' })

parse_nm_line_lem_example :
    parse_nm_line (
      codes "l"
      ++ b'[' ∷ (codes "a" ++ b']' ∷ b':' ∷ b' ' ∷ (codes "f" ++ b' ' ∷ b'T' ∷ b' ' ∷ codes "0")))
    ≡ (if should_keep_type b'T'
        then some (record { symbol = codes "f"; object = codes "a"; type = b'T' })
        else none)
parse_nm_line_lem_example =
    parse_nm_line_lem (codes "l") (codes "a") (codes "f") (codes "0") b'T' (ground arith)
      (ground arith) (unfold isspace in (refl, tt)) (unfold isspace in refl)

abbrev listing : Bytes
listing = codes "l[a]: f T 0\nl[b]: f T 0\n"

-- ===== src/Tests/Directory.antt =====
-- A directory in which one name stands in two spellings, sorted by the insertion sort.
use hermetic_llvm.Bytes.{strcmp, tolower, isupper, codes, strcmp-swap, strcmp-eq, str_lt_trans}
use hermetic_llvm.Vfs.Entries.{
  preferred_of, validate_sorted_entries, validate_group, collapse_sorted_entries, span_folded,
  Qsort, Ascends, compare_entries, ci_collect_preferred_entries, Entry, list_entries, preferred,
  ambiguous, new_entry,
}
use hermetic_llvm.Vfs.Paths.{ci_fold_case}
use hermetic_llvm.Tests.Sort.{
  insert, AscendsBy, insertion_sort, insertion_sort-perm, insertion_sort-AscendsBy,
}
use hermetic_llvm.Vfs.Entries.Collect.{Verdict, ci_collect_preferred_entries_lem}
use Prim.Native.Nat.{Ordering}
use hermetic_llvm.Prelude.{◌≡◌, refl, ◌≢◌, false, some, List, [], ◌∷◌, arith}

pub total : (x y : Entry) → compare_entries x y ≡ Ordering.gt → compare_entries y x ≢ Ordering.gt
unfolding compare_entries
total x y e k = ground (
  arith,
  strcmp-swap x.folded_name y.folded_name,
  strcmp-swap x.name y.name,
  strcmp-swap y.folded_name x.folded_name,
)

pub at_most_trans :
    (x y z : Entry)
    → compare_entries x y ≢ Ordering.gt
    → compare_entries y z ≢ Ordering.gt
    → compare_entries x z ≢ Ordering.gt
unfolding compare_entries
at_most_trans x y z h k e = ground (
  arith,
  str_lt_trans x.folded_name y.folded_name z.folded_name,
  str_lt_trans x.name y.name z.name,
  strcmp-eq x.folded_name y.folded_name,
  strcmp-eq y.folded_name z.folded_name,
  strcmp-eq x.name y.name,
  strcmp-eq y.name z.name,
)

pub AscendsBy-Ascends : (l : List Entry) → AscendsBy compare_entries l → Ascends l
AscendsBy-Ascends [] h = tt
AscendsBy-Ascends (e ∷ l) h = (h.0, AscendsBy-Ascends l h.1)

abbrev pub by_insertion : Qsort
by_insertion = record {
  sort = insertion_sort compare_entries;
  sort-perm = insertion_sort-perm compare_entries;
  sort-ascends =
      λ l. AscendsBy-Ascends _ (insertion_sort-AscendsBy compare_entries total at_most_trans l);
}

keeps_lower :
    ci_collect_preferred_entries by_insertion
      (some (codes "." ∷ codes "B" ∷ codes "A.h" ∷ codes "a.h" ∷ [], false))
    ≡ preferred (new_entry (codes "a.h") ∷ new_entry (codes "B") ∷ [])
unfolding ci_collect_preferred_entries list_entries strcmp preferred_of validate_sorted_entries
    insertion_sort insert compare_entries ci_fold_case tolower isupper validate_group
    collapse_sorted_entries span_folded
keeps_lower = refl

refuses_ambiguous :
    ci_collect_preferred_entries by_insertion
      (some (codes "A" ∷ codes "aB" ∷ codes "AB" ∷ [], false))
    ≡ ambiguous (codes "AB") (codes "aB")
unfolding ci_collect_preferred_entries list_entries strcmp preferred_of validate_sorted_entries
    insertion_sort insert compare_entries ci_fold_case tolower isupper validate_group
    collapse_sorted_entries span_folded
refuses_ambiguous = refl

ci_collect_preferred_entries_lem_example :
    Verdict
      (list_entries (codes "A" ∷ codes "a" ∷ []))
      (ci_collect_preferred_entries by_insertion (some (codes "A" ∷ codes "a" ∷ [], false)))
ci_collect_preferred_entries_lem_example =
    ci_collect_preferred_entries_lem by_insertion (codes "A" ∷ codes "a" ∷ [])

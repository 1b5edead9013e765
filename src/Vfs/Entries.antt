-- ===== src/Vfs/Entries.antt =====
-- The entries of a directory in tools/case_insensitive_vfs/filesystem.c: collected, sorted, checked
-- for names that differ only in case, and one kept of each group of such names.
pub mod Sorting
pub mod Groups
pub mod Choice
pub mod Validate
pub mod Collect
use hermetic_llvm.Vfs.Paths.{ci_fold_case}
use hermetic_llvm.Bytes.{Bytes, strcmp, str_eq, codes}
use Prim.Native.Nat.{Ordering}
use hermetic_llvm.Prelude.{
  ℕ, zero, suc, ◌≢◌, Bool, ◌||◌, Option, none, some, List, [], ◌∷◌, ltb, if◌then◌else◌, length, All,
  any_of,
}
use mathlib.Core.List.{Perm}

-- `struct ci_directory_entry`.
pub record Entry : Type 0 where
  pub name : Bytes
  pub folded_name : Bytes

unfoldable pub compare_entries : Entry → Entry → Ordering
compare_entries left right = elim (strcmp left.folded_name right.folded_name) [
  | Ordering.lt ↦ Ordering.lt
  | Ordering.gt ↦ Ordering.gt
  | Ordering.eq ↦ strcmp left.name right.name
]

abbrev pub new_entry : Bytes → Entry
new_entry name = record { name = name; folded_name = ci_fold_case name }

-- The loop over `readdir`, with `append_entry`.
unfoldable pub list_entries : List Bytes → List Entry
list_entries [] = []
list_entries (name ∷ names) =
    if str_eq name (codes ".") || str_eq name (codes "..")
    then list_entries names
    else new_entry name ∷ list_entries names

-- The strings of an entry are equal: its name is in lower case.
abbrev pub is_lower : Entry → Bool
is_lower e = str_eq e.name e.folded_name

-- The inner `while` of both loops over groups: the entries that fold like the first, and the rest.
unfoldable pub span_folded : Entry → List Entry → List Entry × List Entry
span_folded first [] = ([], [])
span_folded first (e ∷ entries) =
    let (same, rest) = span_folded first entries in
    if str_eq first.folded_name e.folded_name then (e ∷ same, rest) else ([], e ∷ entries)

-- The groups `[start, end)` that the outer `while` goes through: a first entry and those behind it.
pub groups : ℕ → List Entry → List (Entry × List Entry)
groups zero entries = []
groups (suc fuel) [] = []
groups (suc fuel) (first ∷ entries) =
    (first, (span_folded first entries).0) ∷ groups fuel (span_folded first entries).1

-- A group takes an entry at least.
abbrev pub all_groups : List Entry → List (Entry × List Entry)
all_groups entries = groups (length entries) entries

-- What `validate_sorted_entries` finds: the names for its message, if there are any.
unfoldable pub validate_group : Entry → List Entry → Option (Bytes × Bytes)
validate_group first [] = none
validate_group first (second ∷ more) =
    if any_of is_lower (first ∷ second ∷ more) then none else some (first.name, second.name)

pub validate_groups : List (Entry × List Entry) → Option (Bytes × Bytes)
validate_groups [] = none
validate_groups ((first, more) ∷ rest) = elim (validate_group first more) [
  | none ↦ validate_groups rest
  | some names ↦ some names
]

unfoldable pub validate_sorted_entries : List Entry → Option (Bytes × Bytes)
unfolding validate_groups groups
validate_sorted_entries entries = validate_groups (all_groups entries)

-- The entry that is kept of a group: the first in lower case, or else the first.
unfoldable pub first_lower : Entry → List Entry → Entry
first_lower first [] = first
first_lower first (e ∷ entries) = if is_lower e then e else first_lower first entries

abbrev pub selected : Entry → List Entry → Entry
selected first more = if is_lower first then first else first_lower first more

pub collapse_groups : List (Entry × List Entry) → List Entry
collapse_groups [] = []
collapse_groups ((first, more) ∷ rest) = selected first more ∷ collapse_groups rest

unfoldable pub collapse_sorted_entries : List Entry → List Entry
unfolding collapse_groups groups first_lower
collapse_sorted_entries entries = collapse_groups (all_groups entries)

-- What a call comes to: the entries, a failure to read, or two names that cannot be told apart.
pub data Collected : Type 0 where
  preferred : List Entry → Collected
  unreadable : Collected
  ambiguous : Bytes → Bytes → Collected

-- Every entry is at most each that stands behind it.
abbrev pub Ascends : List Entry → Type 0
Ascends [] = Unit
Ascends (e ∷ entries) = All (λ f. compare_entries e f ≢ Ordering.gt) entries × Ascends entries

-- `qsort` by `compare_entries`: any rearrangement into ascending order.
pub record Qsort : Type 1 where
  pub sort : List Entry → List Entry
  pub sort-perm : (l : List Entry) → Perm (sort l) l
  pub sort-ascends : (l : List Entry) → Ascends (sort l)

unfoldable pub preferred_of : List Entry → Collected
preferred_of sorted = elim (validate_sorted_entries sorted) [
  | none ↦ preferred (collapse_sorted_entries sorted)
  | some (first, second) ↦ ambiguous first second
]

-- `listing` is what `opendir` and the calls of `readdir` give: the names, and whether the last
-- call failed.
unfoldable pub ci_collect_preferred_entries : Qsort → Option (List Bytes × Bool) → Collected
ci_collect_preferred_entries q listing = elim listing [
  | none ↦ unreadable
  | some (names, broken) ↦
      if broken
      then unreadable
      else (let entries = list_entries names in
          if ltb 1 (length entries) then preferred_of (q.sort entries) else preferred entries)
]

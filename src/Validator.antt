-- ===== src/Validator.antt =====
-- tools/internal/static_library_validator.c: the symbols that llvm-nm finds in a static library,
-- and the report of those that two of its objects define.
pub mod Lines
pub mod Order
pub mod Runs
pub mod Report
pub mod Main
pub mod Buffers
pub mod Process
pub mod WindowsProcess
use hermetic_llvm.Bytes.{isupper, Bytes, is_eq, isspace, span_word, codes, skip_space}
use Prim.Native.Nat.{Ordering, compare}
use hermetic_llvm.Prelude.{
  ℕ, zero, suc, ◌+◌, ◌≢◌, Bool, true, false, not, ◌&&◌, Option, none, some, List, [], ◌∷◌, ◌++◌,
  ltb, ◌==◌, if◌then◌else◌, length, All,
}
use mathlib.Core.List.{Perm}

-- `struct symbol_entry`; the lengths are those of the byte strings.
pub record SymbolEntry : Type 0 where
  pub symbol : Bytes
  pub object : Bytes
  pub type : ℕ

unfoldable pub should_keep_type : ℕ → Bool
should_keep_type type =
    isupper type
    && not (type == b'U')
    && not (type == b'V')
    && not (type == b'W')
    && not (type == b'C')

-- What stands before the first `c`, and behind it.
unfoldable pub memchr : Bytes → ℕ → Option (Bytes × Bytes)
memchr [] c = none
memchr (x ∷ xs) c =
    if x == c
    then some ([], xs)
    else elim (memchr xs c) [ none ↦ none | some (b, a) ↦ some (x ∷ b, a) ]

-- From the type on: it is one byte with white space behind it.
pub parse_type : Bytes → Bytes → Bytes → Option SymbolEntry
parse_type object symbol [] = none
parse_type object symbol (type ∷ []) = none
parse_type object symbol (type ∷ space ∷ rest) =
    if not (isspace space)
    then none
    else if not (should_keep_type type)
    then none
    else some (record { symbol = symbol; object = object; type = type })

-- From the symbol on.
pub parse_symbol : Bytes → Bytes → Option SymbolEntry
parse_symbol object [] = none
parse_symbol object (c ∷ p) =
    let (symbol, rest) = span_word (c ∷ p) in parse_type object symbol (skip_space rest)

-- Behind the closing bracket.
pub parse_tail : Bytes → Bytes → Option SymbolEntry
parse_tail object (colon ∷ space ∷ p) =
    if colon == b':' && space == b' ' then parse_symbol object (skip_space p) else none
parse_tail object _ = none

unfoldable pub parse_nm_line : Bytes → Option SymbolEntry
unfolding parse_tail parse_symbol parse_type
parse_nm_line line = elim (memchr line b'[') [
  | none ↦ none
  | some (_, after) ↦ elim (memchr after b']') [
    | none ↦ none
    | some (object, behind) ↦ parse_tail object behind
  ]
]

-- The lines of the output, as the loop over its bytes cuts them; the last one may be empty.
unfoldable pub split_lines : Bytes → List Bytes
split_lines [] = [] ∷ []
split_lines (c ∷ cs) =
    if c == b'\n'
    then [] ∷ split_lines cs
    else elim (split_lines cs) [ [] ↦ (c ∷ []) ∷ [] | line ∷ lines ↦ (c ∷ line) ∷ lines ]

unfoldable pub parse_lines : List Bytes → List SymbolEntry
parse_lines [] = []
parse_lines (line ∷ lines) = elim (parse_nm_line line) [
  | none ↦ parse_lines lines
  | some e ↦ e ∷ parse_lines lines
]

-- `memcmp` of the first `n` bytes.
unfoldable pub memcmp : ℕ → Bytes → Bytes → Ordering
memcmp (suc n) (x ∷ a) (y ∷ b) = elim (compare x y) [
  | Ordering.lt ↦ Ordering.lt
  | Ordering.gt ↦ Ordering.gt
  | Ordering.eq ↦ memcmp n a b
]
memcmp _ _ _ = Ordering.eq

unfoldable pub compare_symbol_entries : SymbolEntry → SymbolEntry → Ordering
compare_symbol_entries a b =
    let min_len =
      if ltb (length a.symbol) (length b.symbol) then length a.symbol else length b.symbol in
    elim (memcmp min_len a.symbol b.symbol) [
      | Ordering.lt ↦ Ordering.lt
      | Ordering.gt ↦ Ordering.gt
      | Ordering.eq ↦
          if ltb (length a.symbol) (length b.symbol)
          then Ordering.lt
          else if length a.symbol == length b.symbol
          then Ordering.eq
          else Ordering.gt
    ]

-- Every entry is at most each that stands behind it.
abbrev pub Ascends : List SymbolEntry → Type 0
Ascends [] = Unit
Ascends (e ∷ entries) =
    All (λ f. compare_symbol_entries e f ≢ Ordering.gt) entries × Ascends entries

-- `qsort` by `compare_symbol_entries`: any rearrangement into ascending order.
pub record Qsort : Type 1 where
  pub sort : List SymbolEntry → List SymbolEntry
  pub sort-perm : (l : List SymbolEntry) → Perm (sort l) l
  pub sort-ascends : (l : List SymbolEntry) → Ascends (sort l)

-- `symbol_len` and `memcmp` agree.
abbrev pub same_symbol : SymbolEntry → SymbolEntry → Bool
same_symbol e f =
    length e.symbol == length f.symbol && is_eq (memcmp (length e.symbol) e.symbol f.symbol)

-- The `while` that moves `j`.
unfoldable pub span_symbol : SymbolEntry → List SymbolEntry → List SymbolEntry × List SymbolEntry
span_symbol first [] = ([], [])
span_symbol first (e ∷ entries) =
    let (same, rest) = span_symbol first entries in
    if same_symbol first e then (e ∷ same, rest) else ([], e ∷ entries)

-- What is appended to `dup_block` for one entry, and for all of a run.
unfoldable pub entry_line : SymbolEntry → Bytes
entry_line e = e.object ++ (codes ": " ++ (e.type ∷ b' ' ∷ (e.symbol ++ b'\n' ∷ [])))

unfoldable pub entry_lines : List SymbolEntry → Bytes
entry_lines [] = []
entry_lines (e ∷ entries) = entry_line e ++ entry_lines entries

abbrev pub is_nil : List SymbolEntry → Bool
is_nil [] = true
is_nil (_ ∷ _) = false

-- The loop over the runs of equal symbols: only a run of two or more is reported.
unfoldable pub duplicates : ℕ → List SymbolEntry → Bytes
duplicates zero entries = []
duplicates (suc fuel) [] = []
duplicates (suc fuel) (first ∷ entries) =
    (if is_nil (span_symbol first entries).0
      then []
      else entry_lines (first ∷ (span_symbol first entries).0))
    ++ duplicates fuel (span_symbol first entries).1

-- Every run has an entry at least.
unfoldable pub dup_block : List SymbolEntry → Bytes
unfolding duplicates
dup_block entries = duplicates (length entries) entries

-- ===== src/Vfs/Entries/Sorting.antt =====
-- What sorting leaves: the same members, ascending in the folded names.
use hermetic_llvm.Bytes.{Bytes, str_lt, strcmp, str_lt_trans, strcmp-eq}
use hermetic_llvm.Vfs.Entries.{compare_entries, Entry, Ascends}
use Prim.Native.Nat.{Ordering}
use hermetic_llvm.Prelude.{◌≡◌, ◌≢◌, Bool, true, false, List, [], ◌∷◌, arith, All}

abbrev pub is_le : Ordering → Bool
is_le Ordering.gt = false
is_le Ordering.eq = true
is_le Ordering.lt = true

-- `strcmp` of the folded names is at most 0.
abbrev pub folded_le : Entry → Entry → Bool
folded_le e f = is_le (strcmp e.folded_name f.folded_name)

abbrev pub FoldedSorted : List Entry → Type 0
FoldedSorted [] = Unit
FoldedSorted (e ∷ es) = All (λ f. folded_le e f ≡ true) es × FoldedSorted es

folded_le_of : (e f : Entry) → compare_entries e f ≢ Ordering.gt → folded_le e f ≡ true
unfolding compare_entries
folded_le_of e f h = ground arith

All-folded_le :
    (e : Entry) (es : List Entry)
    → All (λ f. compare_entries e f ≢ Ordering.gt) es
    → All (λ f. folded_le e f ≡ true) es
All-folded_le e [] h = tt
All-folded_le e (f ∷ es) h = (folded_le_of e f h.0, All-folded_le e es h.1)

pub Ascends-FoldedSorted : (es : List Entry) → Ascends es → FoldedSorted es
Ascends-FoldedSorted [] h = tt
Ascends-FoldedSorted (e ∷ es) h = (All-folded_le e es h.0, Ascends-FoldedSorted es h.1)

pub lt_of_lt_le :
    (a b c : Bytes) → str_lt a b ≡ true → is_le (strcmp b c) ≡ true → str_lt a c ≡ true
lt_of_lt_le a b c h k = ground (arith, str_lt_trans a b c, strcmp-eq b c)

-- ===== src/Vfs/Entries/Groups.antt =====
-- What the loops over the groups of a sorted array keep.
use hermetic_llvm.Vfs.Entries.Sorting.{FoldedSorted, folded_le, lt_of_lt_le}
use hermetic_llvm.Vfs.Entries.{
  Entry, first_lower, span_folded, collapse_groups, is_lower, groups, selected,
}
use hermetic_llvm.Bytes.{Bytes, str_eq, str_lt, str_eq_iff}
use hermetic_llvm.Prelude.{
  ℕ, zero, suc, ◌≡◌, refl, sym, subst, inl, inr, Bool, true, List, [], ◌∷◌, ◌++◌, arith, Bool-cases,
  All,
}

-- Whether an entry folds to a name.
abbrev pub folds_to : Bytes → Entry → Bool
folds_to folded e = str_eq e.folded_name folded

-- Ascending with no folded name twice.
abbrev pub StrictlyFolded : List Entry → Type 0
StrictlyFolded [] = Unit
StrictlyFolded (e ∷ es) =
    All (λ f. str_lt e.folded_name f.folded_name ≡ true) es × StrictlyFolded es

pub span_folded-append :
    (first : Entry) (es : List Entry) → (span_folded first es).0 ++ (span_folded first es).1 ≡ es
unfolding span_folded
span_folded-append first [] = refl
span_folded-append first (e ∷ es) = ground (arith, span_folded-append first es)

pub span_folded-same :
    (first : Entry) (es : List Entry)
    → All (λ e. first.folded_name ≡ e.folded_name) (span_folded first es).0
unfolding span_folded
span_folded-same first [] = tt
span_folded-same first (e ∷ es) = elim (Bool-cases (str_eq first.folded_name e.folded_name)) [
  | inl same ↦
      rw same ((str_eq_iff first.folded_name e.folded_name).0 same, span_folded-same first es)
  | inr other ↦ rw other tt
]

pub span_folded-sorted :
    (first : Entry) (es : List Entry) → FoldedSorted es → FoldedSorted (span_folded first es).1
unfolding span_folded
span_folded-sorted first [] h = tt
span_folded-sorted first (e ∷ es) h = elim (Bool-cases (str_eq first.folded_name e.folded_name)) [
  | inl same ↦ rw same (span_folded-sorted first es h.1)
  | inr other ↦ rw other h
]

All-above :
    (first e : Entry) (es : List Entry)
    → str_lt first.folded_name e.folded_name ≡ true
    → All (λ f. folded_le e f ≡ true) es
    → All (λ f. str_lt first.folded_name f.folded_name ≡ true) es
All-above first e [] h k = tt
All-above first e (f ∷ es) h k =
    (lt_of_lt_le first.folded_name e.folded_name f.folded_name h k.0, All-above first e es h k.1)

-- What stands behind a group is above it.
pub span_folded-above :
    (first : Entry) (es : List Entry)
    → FoldedSorted (first ∷ es)
    → All (λ f. str_lt first.folded_name f.folded_name ≡ true) (span_folded first es).1
unfolding span_folded
span_folded-above first [] h = tt
span_folded-above first (e ∷ es) h = elim (Bool-cases (str_eq first.folded_name e.folded_name)) [
  | inl same ↦ rw same (span_folded-above first es (h.0.1, h.1.1))
  | inr other ↦
      let above : str_lt first.folded_name e.folded_name ≡ true = ground (arith, h.0.0) in
      rw other (above, All-above first e es above h.1.0)
]

All-left : (P : Entry → Type 0) (a b : List Entry) → All P (a ++ b) → All P a
All-left P [] b h = tt
All-left P (x ∷ a) b h = (h.0, All-left P a b h.1)

All-right : (P : Entry → Type 0) (a b : List Entry) → All P (a ++ b) → All P b
All-right P [] b h = h
All-right P (x ∷ a) b h = All-right P a b h.1

first_lower-All :
    (P : Entry → Type 0) (first : Entry) (more : List Entry)
    → P first
    → All P more
    → P (first_lower first more)
unfolding first_lower
first_lower-All P first [] p h = p
first_lower-All P first (e ∷ es) p h = elim (Bool-cases (is_lower e)) [
  | inl low ↦ rw low h.0
  | inr up ↦ rw up (first_lower-All P first es p h.1)
]

-- The selected entry is one of the group.
selected-All :
    (P : Entry → Type 0) (first : Entry) (more : List Entry)
    → P first
    → All P more
    → P (selected first more)
selected-All P first more p h = elim (Bool-cases (is_lower first)) [
  | inl low ↦ rw low p
  | inr up ↦ rw up (first_lower-All P first more p h)
]

pub selected-folded :
    (first : Entry) (es : List Entry)
    → first.folded_name ≡ (selected first (span_folded first es).0).folded_name
selected-folded first es =
    selected-All (λ e. first.folded_name ≡ e.folded_name) first (span_folded first es).0 refl
      (span_folded-same first es)

-- What holds of every entry holds of every entry that is kept.
pub collapse-All :
    (P : Entry → Type 0) (fuel : ℕ) (es : List Entry)
    → All P es
    → All P (collapse_groups (groups fuel es))
unfolding collapse_groups groups
collapse-All P zero es h = tt
collapse-All P (suc fuel) [] h = tt
collapse-All P (suc fuel) (first ∷ es) h =
    let split = subst (All P) (sym (span_folded-append first es)) h.1 in
    (
      selected-All P first _ h.0 (All-left P _ _ split),
      collapse-All P fuel _ (All-right P (span_folded first es).0 _ split),
    )

-- One entry is kept for each folded name, in ascending order.
pub collapse-StrictlyFolded :
    (fuel : ℕ) (es : List Entry)
    → FoldedSorted es
    → StrictlyFolded (collapse_groups (groups fuel es))
unfolding collapse_groups groups
collapse-StrictlyFolded zero es h = tt
collapse-StrictlyFolded (suc fuel) [] h = tt
collapse-StrictlyFolded (suc fuel) (first ∷ es) h =
    let rest = (span_folded first es).1 in
    let above = collapse-All _ fuel rest (span_folded-above first es h) in
    (
      subst
          (λ (n : Bytes).
            All (λ f. str_lt n f.folded_name ≡ true) (collapse_groups (groups fuel rest)))
          (selected-folded first es) above,
      collapse-StrictlyFolded fuel rest (span_folded-sorted first es h.1),
    )

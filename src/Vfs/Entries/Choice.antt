-- ===== src/Vfs/Entries/Choice.antt =====
-- Which entry of a group is kept, and when a group is refused.
use hermetic_llvm.Vfs.Entries.Sorting.{FoldedSorted}
use hermetic_llvm.Vfs.Entries.Groups.{
  folds_to, span_folded-same, span_folded-append, selected-folded, span_folded-above, collapse-All,
  span_folded-sorted,
}
use hermetic_llvm.Vfs.Entries.{
  collapse_groups, Entry, groups, span_folded, is_lower, selected, first_lower,
}
use hermetic_llvm.Bytes.{Bytes, str_eq_iff, str_lt, str_eq, strcmp_refl, str_lt_irrefl}
use hermetic_llvm.Prelude.{
  count_if, ℕ, zero, suc, ◌+◌, ◌≤◌, ◌≡◌, refl, ap, ◌≢◌, inl, inr, Bool, true, false, ◌&&◌, ◌||◌,
  List, [], ◌∷◌, ◌++◌, arith, Bool-cases, length, length-append, All, any_of,
}

-- Whether an entry is the name `folded` in lower case.
abbrev pub lower_as : Bytes → Entry → Bool
lower_as folded e = is_lower e && folds_to folded e

any_of-append :
    (p : Entry → Bool) (a b : List Entry) → any_of p (a ++ b) ≡ (any_of p a || any_of p b)
any_of-append p [] b = refl
any_of-append p (x ∷ a) b = ground (arith, any_of-append p a b)

count_if-append :
    (p : Entry → Bool) (a b : List Entry) → count_if p (a ++ b) ≡ count_if p a + count_if p b
count_if-append p [] b = omega arith
count_if-append p (x ∷ a) b = ground (arith, count_if-append p a b)

-- A group by its first entry: the entries that fold like it, and those above it.
module _ (n : Bytes) where
  pub same-folds :
      (f : Bytes) (es : List Entry)
      → All (λ e. n ≡ e.folded_name) es
      → n ≢ f
      → any_of (folds_to f) es ≡ false
  same-folds f [] h k = refl
  same-folds f (e ∷ es) h k = ground (arith, h.0, str_eq_iff e.folded_name f, same-folds f es h.1 k)

  pub same-count :
      (f : Bytes) (es : List Entry)
      → All (λ e. n ≡ e.folded_name) es
      → n ≢ f
      → count_if (folds_to f) es ≡ 0
  same-count f [] h k = refl
  same-count f (e ∷ es) h k = ground (arith, h.0, str_eq_iff e.folded_name f, same-count f es h.1 k)

  pub same-lower :
      (f : Bytes) (es : List Entry)
      → All (λ e. n ≡ e.folded_name) es
      → n ≢ f
      → any_of (lower_as f) es ≡ false
  same-lower f [] h k = refl
  same-lower f (e ∷ es) h k = ground (arith, h.0, str_eq_iff e.folded_name f, same-lower f es h.1 k)

  pub same-is_lower :
      (es : List Entry)
      → All (λ e. n ≡ e.folded_name) es
      → any_of (lower_as n) es ≡ any_of is_lower es
  same-is_lower [] h = refl
  same-is_lower (e ∷ es) h = ground (arith, h.0, strcmp_refl n, same-is_lower es h.1)

  pub above-count :
      (es : List Entry) → All (λ e. str_lt n e.folded_name ≡ true) es → count_if (folds_to n) es ≡ 0
  above-count [] h = refl
  above-count (e ∷ es) h =
      ground (arith, h.0, str_eq_iff e.folded_name n, str_lt_irrefl n, above-count es h.1)

  pub above-lower :
      (es : List Entry)
      → All (λ e. str_lt n e.folded_name ≡ true) es
      → any_of (lower_as n) es ≡ false
  above-lower [] h = refl
  above-lower (e ∷ es) h =
      ground (arith, h.0, str_eq_iff e.folded_name n, str_lt_irrefl n, above-lower es h.1)

module _ (first : Entry) (es : List Entry) where
  abbrev pub same : List Entry
  same = (span_folded first es).0

  abbrev pub rest : List Entry
  rest = (span_folded first es).1

  pub length-rest : length rest ≤ length es
  length-rest = omega (arith, ap length (span_folded-append first es), length-append same rest)

  -- The three tests over the array, by the first group and what stands behind it.
  pub split-any :
      (p : Entry → Bool) → any_of p (first ∷ es) ≡ (any_of p (first ∷ same) || any_of p rest)
  split-any p =
      ground (arith, ap (any_of p) (span_folded-append first es), any_of-append p same rest)

  pub split-count :
      (p : Entry → Bool) → count_if p (first ∷ es) ≡ count_if p (first ∷ same) + count_if p rest
  split-count p =
      ground (arith, ap (count_if p) (span_folded-append first es), count_if-append p same rest)

  pub group-same : All (λ e. first.folded_name ≡ e.folded_name) (first ∷ same)
  group-same = (refl, span_folded-same first es)

-- Every folded name of the array is kept, and no other is.
pub collapse-folds :
    (fuel : ℕ) (es : List Entry) (f : Bytes)
    → length es ≤ fuel
    → any_of (folds_to f) (collapse_groups (groups fuel es)) ≡ any_of (folds_to f) es
unfolding collapse_groups groups
collapse-folds zero [] f h = refl
collapse-folds zero (e ∷ es) f h = absurd (omega arith)
collapse-folds (suc fuel) [] f h = refl
collapse-folds (suc fuel) (first ∷ es) f h =
    let ih = collapse-folds fuel (rest first es) f (omega (arith, length-rest first es)) in
    elim (Bool-cases (str_eq first.folded_name f)) [
      | inl here ↦ ground (arith, selected-folded first es)
      | inr other ↦ ground (
        arith,
        ih,
        selected-folded first es,
        split-any first es (folds_to f),
        str_eq_iff first.folded_name f,
        same-folds first.folded_name f (same first es) (span_folded-same first es),
      )
    ]

first_lower-is_lower :
    (first : Entry) (more : List Entry)
    → any_of is_lower more ≡ true
    → is_lower (first_lower first more) ≡ true
unfolding first_lower
first_lower-is_lower first [] h = absurd (ground arith)
first_lower-is_lower first (e ∷ es) h = ground (arith, first_lower-is_lower first es)

selected-is_lower :
    (first : Entry) (more : List Entry)
    → any_of is_lower (first ∷ more) ≡ true
    → is_lower (selected first more) ≡ true
selected-is_lower first more h = ground (arith, first_lower-is_lower first more)

-- An entry is in lower case if some entry of `es` is its folded name in lower case.
abbrev pub PrefersLower : List Entry → Entry → Type 0
PrefersLower es e = any_of (lower_as e.folded_name) es ≡ true → is_lower e ≡ true

-- The preference among what stands behind the first group is one in the whole array.
widen :
    (first : Entry) (es kept : List Entry)
    → All (λ e. str_lt first.folded_name e.folded_name ≡ true) kept
    → All (PrefersLower (rest first es)) kept
    → All (PrefersLower (first ∷ es)) kept
widen first es [] h k = tt
widen first es (e ∷ kept) h k = (
  λ low. k.0 (
      ground (
        arith,
        low,
        h.0,
        str_lt_irrefl e.folded_name,
        split-any first es (lower_as e.folded_name),
        same-lower first.folded_name e.folded_name (first ∷ same first es) (group-same first es),
      )),
  widen first es kept h.1 k.1,
)

-- Of every group that has an entry in lower case, such an entry is kept.
pub collapse-PrefersLower :
    (fuel : ℕ) (es : List Entry)
    → length es ≤ fuel
    → FoldedSorted es
    → All (PrefersLower es) (collapse_groups (groups fuel es))
unfolding collapse_groups groups
collapse-PrefersLower zero es h s = tt
collapse-PrefersLower (suc fuel) [] h s = tt
collapse-PrefersLower (suc fuel) (first ∷ es) h s =
    let above = span_folded-above first es s in
    let shorter : length (rest first es) ≤ fuel = omega (arith, length-rest first es) in
    (
      λ low. selected-is_lower first (same first es) (
          ground (
            arith,
            low,
            selected-folded first es,
            split-any first es (lower_as first.folded_name),
            same-is_lower first.folded_name (first ∷ same first es) (group-same first es),
            above-lower first.folded_name (rest first es) above,
          )),
      widen first es _ (collapse-All _ fuel (rest first es) above)
          (collapse-PrefersLower fuel (rest first es) shorter (span_folded-sorted first es s.1)),
    )

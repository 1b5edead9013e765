-- ===== src/Vfs/Entries/Validate.antt =====
-- When `validate_sorted_entries` refuses an array.
use hermetic_llvm.Vfs.Entries.Choice.{
  lower_as, same-is_lower, rest, length-rest, same, split-count, above-count, split-any, same-count,
  group-same, same-lower, above-lower,
}
use hermetic_llvm.Vfs.Entries.Groups.{
  folds_to, span_folded-above, span_folded-same, span_folded-sorted,
}
use hermetic_llvm.Bytes.{Bytes, str_eq, str_eq_iff, str_lt, strcmp_refl}
use hermetic_llvm.Vfs.Entries.Sorting.{FoldedSorted}
use hermetic_llvm.Vfs.Entries.{Entry, validate_group, validate_groups, groups, is_lower}
use hermetic_llvm.Prelude.{
  count_if, ℕ, zero, suc, ◌≤◌, ◌≡◌, refl, ◌∙◌, inl, inr, true, false, ◌&&◌, none, List, [], ◌∷◌,
  arith, Bool-cases, length, All, any_of, some, Bool, subst, ◌≢◌, Option-cases,
}

-- `first` and `second` are entries that fold alike, with no entry of that name in lower case.
pub record IsAmbiguous (es : List Entry) (first second : Bytes) : Type 0 where
  pub folded : Bytes
  pub first_here : any_of (λ e. str_eq e.name first && folds_to folded e) es ≡ true
  pub second_here : any_of (λ e. str_eq e.name second && folds_to folded e) es ≡ true
  pub twice : 2 ≤ count_if (folds_to folded) es
  pub no_lower : any_of (lower_as folded) es ≡ false

validate_group-none :
    (first second : Entry) (more : List Entry)
    → validate_group first (second ∷ more) ≡ none
    → any_of is_lower (first ∷ second ∷ more) ≡ true
unfolding validate_group
validate_group-none first second more h = ground arith

-- A group that is not refused, of an entry and what folds like it.
group-none :
    (first : Entry) (more : List Entry)
    → All (λ e. first.folded_name ≡ e.folded_name) more
    → validate_group first more ≡ none
    → 2 ≤ count_if (folds_to first.folded_name) (first ∷ more)
    → any_of (lower_as first.folded_name) (first ∷ more) ≡ true
group-none first [] a h c = absurd (ground arith)
group-none first (second ∷ more) a h c =
    same-is_lower first.folded_name (first ∷ second ∷ more) (refl, a)
    ∙ validate_group-none first second more h

-- Where no group is refused, each name that is there twice is there in lower case.
pub validate-none :
    (fuel : ℕ) (es : List Entry) (f : Bytes)
    → length es ≤ fuel
    → FoldedSorted es
    → validate_groups (groups fuel es) ≡ none
    → 2 ≤ count_if (folds_to f) es
    → any_of (lower_as f) es ≡ true
unfolding validate_groups groups
validate-none zero [] f h s v c = absurd (omega arith)
validate-none zero (e ∷ es) f h s v c = absurd (omega arith)
validate-none (suc fuel) [] f h s v c = absurd (omega arith)
validate-none (suc fuel) (first ∷ es) f h s v c =
    let above = span_folded-above first es s in
    let shorter : length (rest first es) ≤ fuel = omega (arith, length-rest first es) in
    let group : validate_group first (same first es) ≡ none = ground arith in
    let later : validate_groups (groups fuel (rest first es)) ≡ none = ground arith in
    elim (Bool-cases (str_eq first.folded_name f)) [
      | inl here ↦
          let e = (str_eq_iff first.folded_name f).0 here in
          let counted : 2 ≤ count_if (folds_to first.folded_name) (first ∷ same first es) = ground (
            arith,
            split-count first es (folds_to f),
            above-count first.folded_name (rest first es) above,
          ) in
          ground (
            arith,
            split-any first es (lower_as f),
            group-none first (same first es) (span_folded-same first es) group counted,
          )
      | inr other ↦ ground (
        arith,
        split-any first es (lower_as f),
        split-count first es (folds_to f),
        str_eq_iff first.folded_name f,
        same-count first.folded_name f (first ∷ same first es) (group-same first es),
        validate-none fuel (rest first es) f shorter (span_folded-sorted first es s.1) later,
      )
    ]

-- Whether an entry has a name and folds to another.
abbrev pub named : Bytes → Bytes → Entry → Bool
named name folded e = str_eq e.name name && folds_to folded e

-- The first group is refused.
refused :
    (first second : Entry) (more es : List Entry)
    → same first es ≡ second ∷ more
    → any_of is_lower (first ∷ second ∷ more) ≡ false
    → All (λ e. str_lt first.folded_name e.folded_name ≡ true) (rest first es)
    → IsAmbiguous (first ∷ es) first.name second.name
refused first second more es e low above =
    let n = first.folded_name in
    let alike : All (λ f. n ≡ f.folded_name) (second ∷ more) =
      subst (All (λ f. n ≡ f.folded_name)) e (span_folded-same first es) in
    record {
      folded = n;
      first_here = ground (arith, strcmp_refl first.name, strcmp_refl n);
      second_here = ground (
        arith,
        split-any first es (named second.name n),
        strcmp_refl second.name,
        strcmp_refl n,
        alike.0,
      );
      twice = ground (arith, split-count first es (folds_to n), strcmp_refl n, alike.0);
      no_lower = ground (
        arith,
        split-any first es (lower_as n),
        same-is_lower n (first ∷ second ∷ more) (refl, alike),
        above-lower n (rest first es) above,
      );
    }

-- A later group is refused.
refused_later :
    (first : Entry) (es : List Entry) (a b : Bytes)
    → All (λ e. str_lt first.folded_name e.folded_name ≡ true) (rest first es)
    → IsAmbiguous (rest first es) a b
    → IsAmbiguous (first ∷ es) a b
refused_later first es a b above r =
    let n = first.folded_name in
    let apart : n ≢ r.folded =
      λ e. let none' = above-count n (rest first es) above in absurd (ground (arith, r.twice)) in
    record {
      folded = r.folded;
      first_here = ground (arith, split-any first es (named a r.folded), r.first_here);
      second_here = ground (arith, split-any first es (named b r.folded), r.second_here);
      twice = omega (arith, split-count first es (folds_to r.folded), r.twice);
      no_lower = ground (
        arith,
        split-any first es (lower_as r.folded),
        same-lower n r.folded (first ∷ same first es) (group-same first es) apart,
        r.no_lower,
      );
    }

validate_group-some :
    (first : Entry) (more : List Entry) (a b : Bytes)
    → validate_group first more ≡ some (a, b)
    → (second : Entry) × (tail : List Entry) × (more ≡ second ∷ tail)
      × (a ≡ first.name)
      × (b ≡ second.name)
      × (any_of is_lower (first ∷ second ∷ tail) ≡ false)
unfolding validate_group
validate_group-some first [] a b e = absurd (ground arith)
validate_group-some first (second ∷ tail) a b e =
    (second, tail, refl, ground arith, ground arith, ground arith)

-- Where a group is refused, its two names cannot be told apart.
pub validate-some :
    (fuel : ℕ) (es : List Entry) (a b : Bytes)
    → FoldedSorted es
    → validate_groups (groups fuel es) ≡ some (a, b)
    → IsAmbiguous es a b
unfolding validate_groups groups
validate-some zero es a b s v = absurd (ground arith)
validate-some (suc fuel) [] a b s v = absurd (ground arith)
validate-some (suc fuel) (first ∷ es) a b s v =
    let above = span_folded-above first es s in
    elim (Option-cases (validate_group first (same first es))) [
      | inl fine ↦
          refused_later first es a b above (
            validate-some fuel (rest first es) a b (span_folded-sorted first es s.1) (ground arith))
      | inr (p, bad) ↦
          let here : validate_group first (same first es) ≡ some (a, b) = ground arith in
          let (second, tail, e, x, y, low) = validate_group-some first (same first es) a b here in
          rw (x, y) (refused first second tail es e low above)
    ]

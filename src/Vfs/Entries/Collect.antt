-- ===== src/Vfs/Entries/Collect.antt =====
-- What `ci_collect_preferred_entries` returns for a directory that was read.
use hermetic_llvm.Vfs.Entries.Validate.{named, validate-none, IsAmbiguous, validate-some}
use hermetic_llvm.Vfs.Entries.Choice.{PrefersLower, collapse-folds, lower_as, collapse-PrefersLower}
use hermetic_llvm.Vfs.Entries.Sorting.{FoldedSorted, Ascends-FoldedSorted}
use hermetic_llvm.Vfs.Entries.Groups.{
  StrictlyFolded, folds_to, collapse-StrictlyFolded, collapse-All,
}
use hermetic_llvm.Vfs.Entries.{
  Entry, validate_sorted_entries, collapse_sorted_entries, Collected, ci_collect_preferred_entries,
  preferred_of, Qsort, preferred, ambiguous, list_entries, unreadable,
}
use hermetic_llvm.Bytes.{Bytes, str_eq, strcmp_refl}
use hermetic_llvm.Prelude.{
  count_if, any_of-perm, count_if-perm, ◌≤◌, ◌≡◌, refl, sym, ◌∙◌, inl, inr, Bool, true, false, none,
  some, List, [], ◌∷◌, arith, ltb, Bool-cases, Option-cases, length, All, any_of,
}
use mathlib.Core.List.{Perm}

-- Whether an entry bears a name.
abbrev pub bears : Bytes → Entry → Bool
bears name e = str_eq e.name name

-- The entries that are kept of those that a directory lists: one for each folded name, in strictly
-- ascending order; each is listed; and the lower-case name is kept wherever it is listed, which it
-- is wherever two names fold alike.
pub record IsPreferred (listed kept : List Entry) : Type 0 where
  pub ascending : StrictlyFolded kept
  pub complete : (folded : Bytes) → any_of (folds_to folded) kept ≡ any_of (folds_to folded) listed
  pub sound : All (λ e. any_of (bears e.name) listed ≡ true) kept
  pub lower : All (PrefersLower listed) kept
  pub resolved :
      (folded : Bytes)
      → 2 ≤ count_if (folds_to folded) listed
      → any_of (lower_as folded) listed ≡ true

All-bears_in :
    (es more : List Entry)
    → ((n : Bytes) → any_of (bears n) more ≡ true → any_of (bears n) es ≡ true)
    → All (λ e. any_of (bears e.name) es ≡ true) more
All-bears_in es [] h = tt
All-bears_in es (e ∷ more) h = (
  h e.name (ground (arith, strcmp_refl e.name)),
  All-bears_in es more (λ n k. h n (ground arith)),
)

All-map : (P Q : Entry → Type 0) (es : List Entry) → ((e : Entry) → P e → Q e) → All P es → All Q es
All-map P Q [] f h = tt
All-map P Q (e ∷ es) f h = (f e h.0, All-map P Q es f h.1)

sorted-IsPreferred :
    (es : List Entry)
    → FoldedSorted es
    → validate_sorted_entries es ≡ none
    → IsPreferred es (collapse_sorted_entries es)
unfolding validate_sorted_entries collapse_sorted_entries
sorted-IsPreferred es s v = record {
  ascending = collapse-StrictlyFolded (length es) es s;
  complete = λ f. collapse-folds (length es) es f (omega arith);
  sound = collapse-All _ (length es) es (All-bears_in es es (λ n k. k));
  lower = collapse-PrefersLower (length es) es (omega arith) s;
  resolved = λ f c. validate-none (length es) es f (omega arith) s v c;
}

-- The order of the listing does not matter.
IsPreferred-perm : (l r kept : List Entry) → Perm l r → IsPreferred l kept → IsPreferred r kept
IsPreferred-perm l r kept p h = record {
  ascending = h.ascending;
  complete = λ f. h.complete f ∙ any_of-perm (folds_to f) p;
  sound = All-map _ _ kept (λ e m. sym (any_of-perm (bears e.name) p) ∙ m) h.sound;
  lower = All-map _ _ kept (λ e k m. k (any_of-perm (lower_as e.folded_name) p ∙ m)) h.lower;
  resolved = λ f c.
      sym (any_of-perm (lower_as f) p) ∙ h.resolved f (omega (arith, count_if-perm (folds_to f) p));
}

IsAmbiguous-perm :
    (l r : List Entry) (a b : Bytes) → Perm l r → IsAmbiguous l a b → IsAmbiguous r a b
IsAmbiguous-perm l r a b p h = record {
  folded = h.folded;
  first_here = sym (any_of-perm (named a h.folded) p) ∙ h.first_here;
  second_here = sym (any_of-perm (named b h.folded) p) ∙ h.second_here;
  twice = omega (arith, count_if-perm (folds_to h.folded) p, h.twice);
  no_lower = sym (any_of-perm (lower_as h.folded) p) ∙ h.no_lower;
}

short-IsPreferred : (es : List Entry) → length es ≤ 1 → IsPreferred es es
short-IsPreferred [] h = record {
  ascending = tt;
  complete = λ f. refl;
  sound = tt;
  lower = tt;
  resolved = λ f c. absurd (omega arith);
}
short-IsPreferred (e ∷ []) h = record {
  ascending = (tt, tt);
  complete = λ f. refl;
  sound = (ground (arith, strcmp_refl e.name), tt);
  lower = (λ low. ground arith, tt);
  resolved = λ f c. absurd (ground arith);
}
short-IsPreferred (e ∷ d ∷ es) h = absurd (omega arith)

-- What each result says of the entries that the directory lists.
abbrev pub Verdict : List Entry → Collected → Type 0
Verdict listed (preferred kept) = IsPreferred listed kept
Verdict listed (ambiguous first second) = IsAmbiguous listed first second
Verdict listed unreadable = ⊥

preferred_of-Verdict : (es : List Entry) → FoldedSorted es → Verdict es (preferred_of es)
unfolding preferred_of
preferred_of-Verdict es s = elim (Option-cases (validate_sorted_entries es)) [
  | inl fine ↦ rw (fine, preferred_of) (sorted-IsPreferred es s fine)
  | inr (p, bad) ↦
      rw (bad, preferred_of)
        (unfold validate_sorted_entries in validate-some (length es) es p.0 p.1 s bad)
]

Verdict-perm : (l r : List Entry) (c : Collected) → Perm l r → Verdict l c → Verdict r c
Verdict-perm l r (preferred kept) p h = IsPreferred-perm l r kept p h
Verdict-perm l r (ambiguous a b) p h = IsAmbiguous-perm l r a b p h
Verdict-perm l r unreadable p h = h

-- With any `qsort`, a directory that was read gives either the preferred entries: one for each
-- folded name, strictly ascending, each listed, the lower-case spelling wherever it is listed, and
-- then every name that is there in several spellings is there in lower case; or two listed names
-- that fold alike where the lower-case spelling is not listed.
pub ci_collect_preferred_entries_lem :
    (q : Qsort) (names : List Bytes)
    → Verdict (list_entries names) (ci_collect_preferred_entries q (some (names, false)))
unfolding ci_collect_preferred_entries
ci_collect_preferred_entries_lem q names =
    let es = list_entries names in
    elim (Bool-cases (ltb 1 (length es))) [
      | inl many ↦ rw many (
          Verdict-perm (q.sort es) es (preferred_of (q.sort es)) (q.sort-perm es) (
            preferred_of-Verdict (q.sort es)
              (Ascends-FoldedSorted (q.sort es) (q.sort-ascends es))))
      | inr few ↦ rw few (short-IsPreferred es (ground arith))
    ]

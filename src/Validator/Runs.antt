-- ===== src/Validator/Runs.antt =====
-- The runs of equal symbols in a sorted array.
use hermetic_llvm.Validator.Order.{compare_symbol_entries-strcmp, same_symbol_iff}
use hermetic_llvm.Validator.{span_symbol, SymbolEntry, compare_symbol_entries, same_symbol, Ascends}
use hermetic_llvm.Bytes.{
  Bytes, strcmp_refl, str_eq_iff, strcmp, str_eq, str_lt, str_lt_irrefl, str_lt_trans, strcmp-eq,
}
use Prim.Native.Nat.{Ordering}
use hermetic_llvm.Prelude.{
  ℕ, ◌+◌, ◌≡◌, refl, sym, ◌∙◌, ◌≢◌, inl, inr, true, List, [], ◌∷◌, ◌++◌, arith, Bool-cases, length,
  All, count_if,
}

-- How many entries have a symbol.
abbrev pub count_symbol : Bytes → List SymbolEntry → ℕ
count_symbol s = count_if (λ e. str_eq e.symbol s)

abbrev pub SymbolSorted : List SymbolEntry → Type 0
SymbolSorted [] = Unit
SymbolSorted (e ∷ es) = All (λ f. strcmp e.symbol f.symbol ≢ Ordering.gt) es × SymbolSorted es

All-strcmp :
    (e : SymbolEntry) (es : List SymbolEntry)
    → All (λ f. compare_symbol_entries e f ≢ Ordering.gt) es
    → All (λ f. strcmp e.symbol f.symbol ≢ Ordering.gt) es
All-strcmp e [] h = tt
All-strcmp e (f ∷ es) h = (rw compare_symbol_entries-strcmp at h.0, All-strcmp e es h.1)

pub Ascends-SymbolSorted : (es : List SymbolEntry) → Ascends es → SymbolSorted es
Ascends-SymbolSorted [] h = tt
Ascends-SymbolSorted (e ∷ es) h = (All-strcmp e es h.0, Ascends-SymbolSorted es h.1)

pub count-append :
    (s : Bytes) (a b : List SymbolEntry)
    → count_symbol s (a ++ b) ≡ count_symbol s a + count_symbol s b
count-append s [] b = omega arith
count-append s (e ∷ a) b = omega (arith, count-append s a b)

pub span_symbol-append :
    (first : SymbolEntry) (es : List SymbolEntry)
    → (span_symbol first es).0 ++ (span_symbol first es).1 ≡ es
unfolding span_symbol
span_symbol-append first [] = refl
span_symbol-append first (e ∷ es) = ground (arith, span_symbol-append first es)

pub span_symbol-same :
    (first : SymbolEntry) (es : List SymbolEntry)
    → All (λ e. e.symbol ≡ first.symbol) (span_symbol first es).0
unfolding span_symbol
span_symbol-same first [] = tt
span_symbol-same first (e ∷ es) = elim (Bool-cases (same_symbol first e)) [
  | inl same ↦
      let eq = (str_eq_iff first.symbol e.symbol).0 (sym (same_symbol_iff first e) ∙ same) in
      rw same (sym eq, span_symbol-same first es)
  | inr other ↦ rw other tt
]

pub span_symbol-sorted :
    (first : SymbolEntry) (es : List SymbolEntry)
    → SymbolSorted es
    → SymbolSorted (span_symbol first es).1
unfolding span_symbol
span_symbol-sorted first [] h = tt
span_symbol-sorted first (e ∷ es) h = elim (Bool-cases (same_symbol first e)) [
  | inl same ↦ rw same (span_symbol-sorted first es h.1)
  | inr other ↦ rw other h
]

All-above :
    (first e : SymbolEntry) (es : List SymbolEntry)
    → str_lt first.symbol e.symbol ≡ true
    → All (λ f. strcmp e.symbol f.symbol ≢ Ordering.gt) es
    → All (λ f. str_lt first.symbol f.symbol ≡ true) es
All-above first e [] h k = tt
All-above first e (f ∷ es) h k = (
  ground (arith, k.0, str_lt_trans first.symbol e.symbol f.symbol, strcmp-eq e.symbol f.symbol),
  All-above first e es h k.1,
)

-- What stands behind a run is above it.
pub span_symbol-above :
    (first : SymbolEntry) (es : List SymbolEntry)
    → SymbolSorted (first ∷ es)
    → All (λ f. str_lt first.symbol f.symbol ≡ true) (span_symbol first es).1
unfolding span_symbol
span_symbol-above first [] h = tt
span_symbol-above first (e ∷ es) h = elim (Bool-cases (same_symbol first e)) [
  | inl same ↦ rw same (span_symbol-above first es (h.0.1, h.1.1))
  | inr other ↦
      let above : str_lt first.symbol e.symbol ≡ true =
        ground (arith, same_symbol_iff first e, h.0.0) in
      rw other (above, All-above first e es above h.1.0)
]

-- The symbols of a run, counted in the run and behind it.
pub count-same :
    (s : Bytes) (es : List SymbolEntry) → All (λ e. e.symbol ≡ s) es → count_symbol s es ≡ length es
count-same s [] h = refl
count-same s (e ∷ es) h = ground (arith, h.0, strcmp_refl s, count-same s es h.1)

pub count-above :
    (s : Bytes) (es : List SymbolEntry)
    → All (λ f. str_lt s f.symbol ≡ true) es
    → count_symbol s es ≡ 0
count-above s [] h = refl
count-above s (e ∷ es) h =
    ground (arith, h.0, str_eq_iff e.symbol s, str_lt_irrefl s, count-above s es h.1)

pub count-other :
    (s t : Bytes) (es : List SymbolEntry)
    → All (λ e. e.symbol ≡ s) es
    → s ≢ t
    → count_symbol t es ≡ 0
count-other s t [] h k = refl
count-other s t (e ∷ es) h k = ground (arith, h.0, str_eq_iff e.symbol t, count-other s t es h.1 k)

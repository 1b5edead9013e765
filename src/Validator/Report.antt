-- ===== src/Validator/Report.antt =====
-- The report lists exactly the entries whose symbol occurs twice.
use hermetic_llvm.Validator.Runs.{
  count_symbol, SymbolSorted, span_symbol-append, span_symbol-same, count-append, count-same,
  count-above, span_symbol-above, count-other, span_symbol-sorted,
}
use hermetic_llvm.Bytes.{Bytes, str_lt, str_lt_irrefl}
use hermetic_llvm.Validator.{
  entry_lines, SymbolEntry, span_symbol, entry_line, is_nil, duplicates, dup_block,
}
use hermetic_llvm.Prelude.{
  ℕ, zero, suc, ◌+◌, ◌≤◌, ◌≡◌, refl, sym, ap, ◌∙◌, ◌≢◌, inl, inr, true, not, List, [], ◌∷◌, ◌++◌,
  append_assoc, arith, leb, if◌then◌else◌, Bool-cases, length, length-append, All,
}

-- The entries of `some` whose symbol occurs at least twice in `all`.
abbrev pub repeated : List SymbolEntry → List SymbolEntry → List SymbolEntry
repeated whole [] = []
repeated whole (e ∷ es) =
    if leb 2 (count_symbol e.symbol whole) then e ∷ repeated whole es else repeated whole es

repeated-append :
    (whole a b : List SymbolEntry) → repeated whole (a ++ b) ≡ repeated whole a ++ repeated whole b
repeated-append whole [] b = refl
repeated-append whole (e ∷ a) b = ground (arith, repeated-append whole a b)

entry_lines-append :
    (a b : List SymbolEntry) → entry_lines (a ++ b) ≡ entry_lines a ++ entry_lines b
unfolding entry_lines
entry_lines-append [] b = refl
entry_lines-append (e ∷ a) b =
    ap (◌++◌ (entry_line e)) (entry_lines-append a b)
    ∙ sym (append_assoc (entry_line e) (entry_lines a) (entry_lines b))

module _ (first : SymbolEntry) (es : List SymbolEntry) where
  abbrev same : List SymbolEntry
  same = (span_symbol first es).0

  abbrev rest : List SymbolEntry
  rest = (span_symbol first es).1

  length-rest : length rest ≤ length es
  length-rest = omega (arith, ap length (span_symbol-append first es), length-append same rest)

  split-count :
      (s : Bytes)
      → count_symbol s (first ∷ es) ≡ count_symbol s (first ∷ same) + count_symbol s rest
  split-count s =
      omega (arith, ap (count_symbol s) (span_symbol-append first es), count-append s same rest)

  run-same : All (λ e. e.symbol ≡ first.symbol) (first ∷ same)
  run-same = (refl, span_symbol-same first es)

  module _ (sorted : SymbolSorted (first ∷ es)) where
    -- Every entry of the run occurs as often as the run is long.
    count-run : count_symbol first.symbol (first ∷ es) ≡ suc (length same)
    count-run = omega (
      arith,
      split-count first.symbol,
      count-same first.symbol (first ∷ same) run-same,
      count-above first.symbol rest (span_symbol-above first es sorted),
    )

    many_iff : leb 2 (suc (length same)) ≡ not (is_nil same)
    many_iff = go same
      where
        go : (l : List SymbolEntry) → leb 2 (suc (length l)) ≡ not (is_nil l)
        go [] = ground arith
        go (e ∷ l) = ground arith

    repeated-run :
        (some' : List SymbolEntry)
        → All (λ e. e.symbol ≡ first.symbol) some'
        → repeated (first ∷ es) some' ≡ (if is_nil same then [] else some')
    repeated-run [] h = elim (Bool-cases (is_nil same)) [ inl y ↦ rw y refl | inr n ↦ rw n refl ]
    repeated-run (e ∷ some') h =
        let shorter = repeated-run some' h.1 in
        let many : leb 2 (count_symbol e.symbol (first ∷ es)) ≡ not (is_nil same) =
          ap (λ s. leb 2 (count_symbol s (first ∷ es))) h.0 ∙ ap (leb 2) count-run ∙ many_iff in
        rw (many, shorter)
          (elim (Bool-cases (is_nil same)) [ inl y ↦ rw y refl | inr n ↦ rw n refl ])

    repeated-rest :
        (some' : List SymbolEntry)
        → All (λ f. str_lt first.symbol f.symbol ≡ true) some'
        → repeated (first ∷ es) some' ≡ repeated rest some'
    repeated-rest [] h = refl
    repeated-rest (e ∷ some') h =
        let other : first.symbol ≢ e.symbol = λ q. ground (arith, h.0, q, str_lt_irrefl e.symbol) in
        let none_same = count-other first.symbol e.symbol (first ∷ same) run-same other in
        let again = repeated-rest some' h.1 in
        let equal : count_symbol e.symbol (first ∷ es) ≡ count_symbol e.symbol rest =
          omega (arith, split-count e.symbol, none_same) in
        rw (equal, again) refl

    repeated-split :
        repeated (first ∷ es) (first ∷ es)
        ≡ (if is_nil same then [] else first ∷ same) ++ repeated rest rest
    repeated-split =
        ap (repeated (first ∷ es)) (ap (◌∷◌ first) (sym (span_symbol-append first es)))
        ∙ repeated-append (first ∷ es) (first ∷ same) rest
        ∙ ap (λ l. l ++ repeated (first ∷ es) rest) (repeated-run (first ∷ same) run-same)
        ∙ ap (λ l. (if is_nil same then [] else first ∷ same) ++ l)
            (repeated-rest rest (span_symbol-above first es sorted))

-- Enough fuel reports the entries whose symbol occurs twice, in their order.
duplicates-fuel :
    (fuel : ℕ) (es : List SymbolEntry)
    → length es ≤ fuel
    → SymbolSorted es
    → duplicates fuel es ≡ entry_lines (repeated es es)
unfolding duplicates entry_lines
duplicates-fuel zero [] le h = refl
duplicates-fuel zero (e ∷ es) le h = absurd (omega arith)
duplicates-fuel (suc fuel) [] le h = refl
duplicates-fuel (suc fuel) (first ∷ es) le h =
    let again =
      duplicates-fuel fuel (rest first es) (omega (arith, length-rest first es))
        (span_symbol-sorted first es h.1) in
    let split =
      ap entry_lines (repeated-split first es h)
      ∙ entry_lines-append (if is_nil (same first es) then [] else first ∷ same first es)
          (repeated (rest first es) (rest first es)) in
    rw (again, split)
      (elim (Bool-cases (is_nil (same first es))) [ inl y ↦ rw y refl | inr n ↦ rw n refl ])

pub dup_block-sorted :
    (es : List SymbolEntry) → SymbolSorted es → dup_block es ≡ entry_lines (repeated es es)
unfolding dup_block
dup_block-sorted es h = duplicates-fuel (length es) es (omega arith) h

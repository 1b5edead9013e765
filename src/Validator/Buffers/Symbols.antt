-- ===== src/Validator/Buffers/Symbols.antt =====
-- The list of symbols keeps its order while its array grows.
use hermetic_llvm.Memory.Buffer.{xrealloc}
use hermetic_llvm.Memory.Laws.{write_at-length, take-write_at}
use hermetic_llvm.Memory.{Realloc, size_t, IsRealloc, out_of_memory, succeeded}
use hermetic_llvm.Validator.{SymbolEntry}
use hermetic_llvm.Validator.Buffers.{SymbolList, add_symbol, stored, entry_size}
use hermetic_llvm.Prelude.{
  ℕ, ◌+◌, ◌*◌, ◌%◌, ◌≤◌, ◌<◌, ◌≡◌, refl, sym, ap, ◌∙◌, ◌⊎◌, inl, inr, List, [], ◌∷◌, ◌++◌, arith,
  ◌==◌, Bool-cases, Option-cases, length, take, take-take,
}

-- An array of the capacity, with room for the entries.
abbrev pub IsSymbolList : SymbolList → Type 0
IsSymbolList list = (length list.entries ≡ list.cap) × (list.len ≤ list.cap)

-- The entries of a list.
abbrev pub entries_of : SymbolList → List SymbolEntry
entries_of list = take list.len list.entries

stored-IsSymbolList :
    (entry : SymbolEntry) (len size : ℕ) (larger old : List SymbolEntry)
    → length larger ≡ size
    → len < size
    → size ≤ 1000000000000000000
    → take len larger ≡ old
    → IsSymbolList (stored entry len size larger)
      × (entries_of (stored entry len size larger) ≡ old ++ entry ∷ [])
stored-IsSymbolList entry len size larger old long inside small kept =
    let exact : (len + 1) % size_t ≡ len + 1 = omega arith in
    rw exact (
      (write_at-length larger len (entry ∷ []) (omega arith) ∙ long, omega arith),
      take-write_at larger len (entry ∷ []) (omega arith) ∙ ap (λ l. l ++ entry ∷ []) kept,
    )

grown-IsSymbolList :
    (realloc : Realloc SymbolEntry) (list : SymbolList) (entry : SymbolEntry) (size : ℕ)
    → IsRealloc entry_size realloc
    → IsSymbolList list
    → list.len < size
    → list.cap ≤ size
    → size ≤ 200000000000000000
    → (xrealloc realloc list.entries (size * entry_size % size_t) (stored entry list.len size)
        ≡ out_of_memory)
      ⊎ ((larger : SymbolList) × (xrealloc realloc list.entries
              (size * entry_size % size_t)
              (stored entry list.len size)
            ≡ succeeded larger)
          × (IsSymbolList larger × (entries_of larger ≡ entries_of list ++ entry ∷ [])))
unfolding xrealloc
grown-IsSymbolList realloc list entry size law (long, inside) room wider small =
    let exact : size * entry_size % size_t ≡ size * entry_size = omega arith in
    elim (Option-cases (realloc list.entries (size * entry_size))) [
      | inl no_memory ↦ inl (rw (xrealloc, exact, no_memory) refl)
      | inr (larger, got) ↦
          let (wide, kept) = law list.entries larger size (omega arith) got in
          inr (
            stored entry list.len size larger,
            rw (xrealloc, exact, got) refl,
            stored-IsSymbolList entry list.len size larger (entries_of list) wide room (omega arith)
                (sym (take-take list.len (length list.entries) larger (omega arith))
                  ∙ ap (take list.len) kept),
          )
    ]

-- `add_symbol` on a well-formed list with a capacity of at most 10 ^ 17, so that no size wraps
-- around, ends: there is no memory, or the list is well formed again and has the new entry behind the
-- old ones.
pub add_symbol_lem :
    (realloc : Realloc SymbolEntry) (list : SymbolList) (entry : SymbolEntry)
    → IsRealloc entry_size realloc
    → IsSymbolList list
    → list.cap ≤ 100000000000000000
    → (add_symbol realloc list entry ≡ out_of_memory)
      ⊎ ((larger : SymbolList) × (add_symbol realloc list entry ≡ succeeded larger)
          × (IsSymbolList larger × (entries_of larger ≡ entries_of list ++ entry ∷ [])))
unfolding add_symbol
add_symbol_lem realloc list entry law well small = elim (Bool-cases (list.len == list.cap)) [
  | inr room ↦ inr (
    stored entry list.len list.cap list.entries,
    rw (add_symbol, room) refl,
    stored-IsSymbolList entry list.len list.cap list.entries (entries_of list) well.0
        (ground (arith, well.1)) (omega arith) refl,
  )
  | inl full ↦ elim (Bool-cases (list.cap == 0)) [
    | inl new ↦
        rw (add_symbol, full, new)
          (grown-IsSymbolList realloc list entry 64 law well (ground arith) (ground arith)
            (omega arith))
    | inr old ↦
        let exact : list.cap * 2 % size_t ≡ list.cap * 2 = omega arith in
        rw (add_symbol, full, old, exact)
          (grown-IsSymbolList realloc list entry (list.cap * 2) law well (ground arith)
            (omega arith) (omega arith))
  ]
]

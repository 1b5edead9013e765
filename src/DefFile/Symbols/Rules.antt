-- ===== src/DefFile/Symbols/Rules.antt =====
-- What the two rules add to the sets.
use hermetic_llvm.DefFile.StringSet.Insert.{string_set_insert-elem, string_set_insert-IsValid}
use hermetic_llvm.DefFile.StringSet.Order.{elem}
use hermetic_llvm.DefFile.StringSet.{StringList, string_set_insert}
use hermetic_llvm.Bytes.{Bytes, is_empty, has_prefix, str_eq, codes, str_eq_iff, has_byte, contains}
use hermetic_llvm.DefFile.Symbols.{
  add_gnu_nm_symbol, SymbolSets, nm_skipped, gnu_skipped, add_nm_symbol, normalize_stdcall,
  AreValid, gnu_excluded_symbol, is_data_type, managed_symbol, insert_symbol, insert_data,
}
use hermetic_llvm.Prelude.{ℕ, ◌≡◌, inl, inr, Bool, true, false, not, ◌&&◌, arith, ◌==◌, Bool-cases}

-- Every member of a set satisfies a test.
abbrev pub AllPass : (Bytes → Bool) → StringList → Type 0
AllPass p set = (w : Bytes) → elem w set.values ≡ true → p w ≡ true

-- What lld's auto-export may list: no excluded name, prefix or suffix.
abbrev pub gnu_exportable : Bytes → Bool
gnu_exportable symbol = not (is_empty symbol) && not (gnu_excluded_symbol symbol)

-- What bindexplib may list: no managed symbol, thunk, deleting destructor or name with a dot.
abbrev pub msvc_exportable : Bytes → Bool
msvc_exportable symbol =
    not (is_empty symbol)
    && not (has_prefix symbol (codes "??_G"))
    && not (has_prefix symbol (codes "??_E"))
    && not (has_byte symbol b'.')
    && not (managed_symbol symbol)
    && not (contains symbol (codes "$ientry_thunk"))
    && not (contains symbol (codes "$entry_thunk"))
    && not (contains symbol (codes "$iexit_thunk"))
    && not (contains symbol (codes "$exit_thunk"))

AllPass-insert :
    (p : Bytes → Bool) (set : StringList) (v : Bytes)
    → p v ≡ true
    → AllPass p set
    → AllPass p (string_set_insert set v)
AllPass-insert p set v h all w m = elim (Bool-cases (str_eq v w)) [
  | inl same ↦ rw (← (str_eq_iff v w).0 same) h
  | inr other ↦ all w (ground (arith, string_set_insert-elem set v w))
]

gnu_exportable_of : (s : Bytes) (t : ℕ) → gnu_skipped s t ≡ false → gnu_exportable s ≡ true
unfolding gnu_skipped
gnu_exportable_of s t h = ground arith

msvc_exportable_of : (s : Bytes) (t : ℕ) → nm_skipped s t ≡ false → msvc_exportable s ≡ true
unfolding nm_skipped
msvc_exportable_of s t h = ground arith

-- Both sets satisfy a test.
abbrev pub BothPass : (Bytes → Bool) → SymbolSets → Type 0
BothPass p sets = AllPass p sets.symbols × AllPass p sets.data_symbols

pub add_gnu-BothPass :
    (p : Bytes → Bool) (sets : SymbolSets) (s : Bytes) (t : ℕ)
    → ((v : Bytes) → gnu_exportable v ≡ true → p v ≡ true)
    → BothPass p sets
    → BothPass p (add_gnu_nm_symbol sets s t)
unfolding add_gnu_nm_symbol
add_gnu-BothPass p sets s t k h = elim (Bool-cases (gnu_skipped s t)) [
  | inl skip ↦ rw skip h
  | inr keep ↦
      let ok = k s (gnu_exportable_of s t keep) in
      elim (Bool-cases (t == b'T')) [
        | inl code ↦ rw (keep, code) (AllPass-insert p sets.symbols s ok h.0, h.1)
        | inr other ↦ rw (keep, other) (h.0, AllPass-insert p sets.data_symbols s ok h.1)
      ]
]

pub add_nm-BothPass :
    (p : Bytes → Bool) (sets : SymbolSets) (s : Bytes) (t : ℕ)
    → ((v : Bytes) → msvc_exportable v ≡ true → p v ≡ true)
    → BothPass p sets
    → BothPass p (add_nm_symbol sets s t)
unfolding add_nm_symbol
add_nm-BothPass p sets raw t k h =
    let s = normalize_stdcall raw in
    elim (Bool-cases (nm_skipped s t)) [
      | inl skip ↦ rw skip h
      | inr keep ↦
          let ok = k s (msvc_exportable_of s t keep) in
          elim (Bool-cases (is_data_type t)) [
            | inl dat ↦ rw (keep, dat) (h.0, AllPass-insert p sets.data_symbols s ok h.1)
            | inr code ↦ rw (keep, code) (AllPass-insert p sets.symbols s ok h.0, h.1)
          ]
    ]

pub insert_symbol-AreValid :
    (sets : SymbolSets) (s : Bytes) → AreValid sets → AreValid (insert_symbol sets s)
insert_symbol-AreValid sets s h = record {
  symbols_valid = string_set_insert-IsValid sets.symbols s h.symbols_valid;
  data_valid = h.data_valid;
}

pub insert_data-AreValid :
    (sets : SymbolSets) (s : Bytes) → AreValid sets → AreValid (insert_data sets s)
insert_data-AreValid sets s h = record {
  symbols_valid = h.symbols_valid;
  data_valid = string_set_insert-IsValid sets.data_symbols s h.data_valid;
}

pub add_gnu-AreValid :
    (sets : SymbolSets) (s : Bytes) (t : ℕ) → AreValid sets → AreValid (add_gnu_nm_symbol sets s t)
unfolding add_gnu_nm_symbol
add_gnu-AreValid sets s t h = elim (Bool-cases (gnu_skipped s t)) [
  | inl skip ↦ rw skip h
  | inr keep ↦ elim (Bool-cases (t == b'T')) [
    | inl code ↦ rw (keep, code) (insert_symbol-AreValid sets s h)
    | inr other ↦ rw (keep, other) (insert_data-AreValid sets s h)
  ]
]

pub add_nm-AreValid :
    (sets : SymbolSets) (s : Bytes) (t : ℕ) → AreValid sets → AreValid (add_nm_symbol sets s t)
unfolding add_nm_symbol
add_nm-AreValid sets raw t h =
    let s = normalize_stdcall raw in
    elim (Bool-cases (nm_skipped s t)) [
      | inl skip ↦ rw skip h
      | inr keep ↦ elim (Bool-cases (is_data_type t)) [
        | inl dat ↦ rw (keep, dat) (insert_data-AreValid sets s h)
        | inr code ↦ rw (keep, code) (insert_symbol-AreValid sets s h)
      ]
    ]

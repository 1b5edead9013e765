-- ===== src/DefFile/Definition/RoundTrip.antt =====
-- Merging a printed definition file gives back the sets that it was printed from.
use hermetic_llvm.DefFile.Lines.{read_lines}
use hermetic_llvm.DefFile.StringSet.Order.{IsSorted}
use hermetic_llvm.DefFile.StringSet.Insert.{insert_sorted, values-insert}
use hermetic_llvm.DefFile.StringSet.{StringList, string_set_insert, empty_list}
use hermetic_llvm.DefFile.Symbols.{SymbolSets, insert_data, insert_symbol, AreValid, no_symbols}
use hermetic_llvm.DefFile.Lines.Loop.{IsLine, IsLine-append, read_lines-nil, read_lines-cons}
use hermetic_llvm.DefFile.Definition.{
  skip_blanks, merge_line, data_mark, merge_lines, data_lines, symbol_lines, library_line,
  merge_definition_file, def_file_text,
}
use hermetic_llvm.Bytes.{isspace, Bytes, strstr, has_prefix, str_lt, codes}
use hermetic_llvm.Prelude.{
  ◌≡◌, refl, ◌≢◌, false, none, some, [], ◌∷◌, ◌++◌, append-nil, arith, All, List, sym, true, ◌∙◌,
  ap, append_assoc, subst,
}

-- A name that survives: not empty, no white space, no zero byte. Every symbol that llvm-nm's
-- output yields is one.
abbrev pub IsName : Bytes → Type 0
IsName name = (name ≢ []) × All (λ c. (isspace c ≡ false) × (c ≢ 0)) name

IsName-IsLine : (name : Bytes) → All (λ c. (isspace c ≡ false) × (c ≢ 0)) name → IsLine name
unfolding isspace
IsName-IsLine [] h = tt
IsName-IsLine (c ∷ cs) h = ((ground arith, h.0.1), IsName-IsLine cs h.1)

strstr-behind :
    (name : Bytes)
    → All (λ c. (isspace c ≡ false) × (c ≢ 0)) name
    → strstr (name ++ data_mark) data_mark ≡ some (name, data_mark)
unfolding strstr isspace
strstr-behind [] h = refl
strstr-behind (c ∷ cs) h = ground (arith, h.0.0, strstr-behind cs h.1)

strstr-no_mark :
    (name : Bytes) → All (λ c. (isspace c ≡ false) × (c ≢ 0)) name → strstr name data_mark ≡ none
unfolding strstr isspace
strstr-no_mark [] h = refl
strstr-no_mark (c ∷ cs) h = ground (arith, h.0.0, strstr-no_mark cs h.1)

skip_blanks-name :
    (name rest : Bytes) → IsName name → skip_blanks (b'\t' ∷ (name ++ rest)) ≡ name ++ rest
unfolding skip_blanks isspace
skip_blanks-name [] rest h = absurd (h.0 refl)
skip_blanks-name (c ∷ cs) rest h = ground (arith, h.1.0.0)

merge_line_data :
    (sets : SymbolSets) (name : Bytes)
    → IsName name
    → merge_line sets (b'\t' ∷ (name ++ data_mark)) ≡ insert_data sets name
unfolding merge_line has_prefix
merge_line_data sets name h = rw (skip_blanks-name name data_mark h, strstr-behind name h.1) refl

merge_line_symbol :
    (sets : SymbolSets) (name : Bytes)
    → IsName name
    → merge_line sets (b'\t' ∷ name) ≡ insert_symbol sets name
unfolding merge_line has_prefix
merge_line_symbol sets name h =
    let skipped = skip_blanks-name name [] h in
    ground (arith, append-nil name, strstr-no_mark name h.1, h.0)

-- One insertion after another.
insert_all : StringList → List Bytes → StringList
insert_all set [] = set
insert_all set (v ∷ vs) = insert_all (string_set_insert set v) vs

merge_data_lines :
    (sets : SymbolSets) (names : List Bytes) (rest : Bytes)
    → All IsName names
    → merge_lines sets (read_lines (data_lines names ++ rest))
      ≡ merge_lines
          (record sets { data_symbols = insert_all sets.data_symbols names })
          (read_lines rest)
unfolding merge_lines data_lines insert_all
merge_data_lines sets [] rest h = refl
merge_data_lines sets (n ∷ ns) rest h =
    let line = b'\t' ∷ (n ++ data_mark) in
    let more = data_lines ns ++ rest in
    let clean : IsLine line = (
      (λ e. omega arith, λ e. omega arith),
      IsLine-append n data_mark (IsName-IsLine n h.0.1) (omega arith),
    ) in
    let shape : data_lines (n ∷ ns) ++ rest ≡ line ++ b'\n' ∷ more = ap (◌∷◌ b'\t') (
      append_assoc n (data_mark ++ b'\n' ∷ data_lines ns) rest
      ∙ sym (append_assoc n data_mark (b'\n' ∷ more))) in
    rw (shape, read_lines-cons line more clean, merge_line_data sets n h.0, merge_lines)
      (merge_data_lines (insert_data sets n) ns rest h.1)

merge_symbol_lines :
    (sets : SymbolSets) (names : List Bytes)
    → All IsName names
    → merge_lines sets (read_lines (symbol_lines names))
      ≡ record sets { symbols = insert_all sets.symbols names }
unfolding merge_lines symbol_lines insert_all
merge_symbol_lines sets [] h = rw read_lines-nil refl
merge_symbol_lines sets (n ∷ ns) h =
    let line = b'\t' ∷ n in
    let clean : IsLine line = ((λ e. omega arith, λ e. omega arith), IsName-IsLine n h.0.1) in
    rw (read_lines-cons line (symbol_lines ns) clean, merge_lines)
      (rw (merge_line_symbol sets n h.0) (merge_symbol_lines (insert_symbol sets n) ns h.1))

-- Inserting an ascending list behind what is below it appends it.
insert_last :
    (xs : List Bytes) (v : Bytes)
    → All (λ x. str_lt x v ≡ true) xs
    → insert_sorted xs v ≡ xs ++ v ∷ []
unfolding insert_sorted
insert_last [] v h = refl
insert_last (x ∷ xs) v h = ground (arith, insert_last xs v h.1)

All-middle : (P : Bytes → Type 0) (xs ys : List Bytes) (v : Bytes) → All P (xs ++ v ∷ ys) → P v
All-middle P [] ys v h = h.0
All-middle P (x ∷ xs) ys v h = All-middle P xs ys v h.1

IsSorted-below :
    (xs ys : List Bytes) (v : Bytes) → IsSorted (xs ++ v ∷ ys) → All (λ x. str_lt x v ≡ true) xs
IsSorted-below [] ys v h = tt
IsSorted-below (x ∷ xs) ys v h = (All-middle _ xs ys v h.0, IsSorted-below xs ys v h.1)

insert_all-sorted :
    (set : StringList) (vs : List Bytes)
    → IsSorted (set.values ++ vs)
    → (insert_all set vs).values ≡ set.values ++ vs
unfolding insert_all
insert_all-sorted set [] h = sym (append-nil set.values)
insert_all-sorted set (v ∷ vs) h =
    let last = values-insert set v ∙ insert_last set.values v (IsSorted-below set.values vs v h) in
    let whole = ap (λ (l : List Bytes). l ++ vs) last ∙ append_assoc set.values (v ∷ []) vs in
    insert_all-sorted (string_set_insert set v) vs (subst IsSorted (sym whole) h) ∙ whole

-- The sets that are printed as definition files which read back.
pub record IsPrintable (sets : SymbolSets) : Type 0 where
  pub valid : AreValid sets
  pub symbol_names : All IsName sets.symbols.values
  pub data_names : All IsName sets.data_symbols.values

exports_line :
    (sets : SymbolSets) (rest : Bytes)
    → merge_lines sets (read_lines (codes "EXPORTS \n" ++ rest))
      ≡ merge_lines sets (read_lines rest)
unfolding merge_lines merge_line has_prefix
exports_line sets rest =
    rw (read_lines-cons (codes "EXPORTS ") rest (omega arith), merge_lines) refl

header_lines :
    (sets : SymbolSets) (dll_name rest : Bytes)
    → IsLine dll_name
    → merge_lines sets (read_lines (library_line dll_name (codes "EXPORTS \n" ++ rest)))
      ≡ merge_lines sets (read_lines rest)
unfolding merge_lines merge_line has_prefix
header_lines sets [] rest h = exports_line sets rest
header_lines sets (c ∷ cs) rest h =
    let line = codes "LIBRARY " ++ (c ∷ cs) in
    let clean = IsLine-append (codes "LIBRARY ") (c ∷ cs) (omega arith) h in
    rw (read_lines-cons line (codes "EXPORTS \n" ++ rest) clean, merge_lines)
      (exports_line sets rest)

-- What `write_def_file` prints for valid sets of names where no `fprintf` fails, `merge_definition_file` merges into empty
-- sets as the same symbols and the same data symbols, where the DLL's name is one line without a
-- zero byte.
pub merge-def_file_text :
    (sets : SymbolSets) (dll_name : Bytes)
    → IsPrintable sets
    → IsLine dll_name
    → (result : SymbolSets) × (merge_definition_file no_symbols
          (some (def_file_text sets dll_name))
          true
        ≡ some result)
      × (result.symbols.values ≡ sets.symbols.values)
      × (result.data_symbols.values ≡ sets.data_symbols.values)
unfolding merge_definition_file def_file_text
merge-def_file_text sets dll_name p h =
    let data_names = sets.data_symbols.values in
    let code = sets.symbols.values in
    let filled : SymbolSets = record {
      symbols = insert_all empty_list code;
      data_symbols = insert_all empty_list data_names;
    } in
    (
      filled,
      ap some (
          header_lines no_symbols dll_name (data_lines data_names ++ symbol_lines code) h
          ∙ merge_data_lines no_symbols data_names (symbol_lines code) p.data_names
          ∙ merge_symbol_lines
              (record no_symbols { data_symbols = insert_all empty_list data_names }) code
              p.symbol_names),
      insert_all-sorted empty_list code p.valid.symbols_valid.sorted,
      insert_all-sorted empty_list data_names p.valid.data_valid.sorted,
    )

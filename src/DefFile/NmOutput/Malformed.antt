-- ===== src/DefFile/NmOutput/Malformed.antt =====
-- The lines at which `parse_nm_output` of tools/def_file_generator/def_file_generator.c fails.
use hermetic_llvm.DefFile.NmOutput.Separator.{IsBehindLast, strstr-of_contains, find_separator-some}
use hermetic_llvm.DefFile.NmOutput.Line.{all_space, parse_line_no_separator}
use hermetic_llvm.DefFile.Lines.{read_lines}
use hermetic_llvm.Bytes.{Bytes, span_word, skip_space, contains, isspace}
use hermetic_llvm.DefFile.NmOutput.{
  Abi, NmState, parse_line, parse_entry, parse_nm_lines, parse_nm_output, separator, entry, blank,
  malformed, add_entry, find_separator, byte_at,
}
use hermetic_llvm.Prelude.{
  ℕ, suc, ◌≡◌, refl, ap, ◌∙◌, ◌⊎◌, inl, inr, Bool, true, false, none, some, List, [], ◌∷◌, ◌++◌,
  arith, All, Bool-cases, length, subst,
}

-- A line that says nothing, or has a symbol with white space behind it behind its last separator.
abbrev pub WellFormed : Bytes → Type 0
WellFormed line =
    ((contains line separator ≡ false) × (all_space line ≡ true))
    ⊎ ((symbol : Bytes) × (space : ℕ) × (rest : Bytes) × IsBehindLast line (symbol ++ space ∷ rest)
        × (isspace space ≡ true))

-- A line with no separator that is not white space, or with no white space behind its last separator.
abbrev pub Malformed : Bytes → Type 0
Malformed line =
    ((contains line separator ≡ false) × (all_space line ≡ false))
    ⊎ ((symbol : Bytes) × IsBehindLast line symbol × All (λ c. isspace c ≡ false) symbol)

span_word-cases :
    (text : Bytes)
    → (((span_word text).1 ≡ []) × All (λ c. isspace c ≡ false) text)
      ⊎ ((symbol : Bytes) × (space : ℕ) × (rest : Bytes) × (text ≡ symbol ++ space ∷ rest)
          × (isspace space ≡ true)
          × ((span_word text).1 ≡ space ∷ rest))
unfolding span_word
span_word-cases [] = inl (refl, tt)
span_word-cases (c ∷ cs) = elim (Bool-cases (isspace c)) [
  | inl space ↦ inr ([], c, cs, refl, space, ground arith)
  | inr other ↦ elim (span_word-cases cs) [
    | inl (e, all) ↦ inl (ground arith, (other, all))
    | inr (symbol, space, rest, split, is_space, e) ↦
        inr (c ∷ symbol, space, rest, ap (λ t. c ∷ t) split, is_space, ground arith)
  ]
]

-- What a line is read as.
abbrev Says : Bytes → Type 0
Says line =
    ((parse_line line ≡ malformed) × Malformed line)
    ⊎ (((parse_line line ≡ blank)
          ⊎ ((symbol : Bytes) × (type : ℕ) × (parse_line line ≡ entry symbol type)))
        × WellFormed line)

parse_line_behind :
    (line at : Bytes)
    → find_separator (suc (length line)) line none ≡ some at
    → parse_line line ≡ parse_entry at
unfolding parse_line
parse_line_behind line at e = rw (parse_line, e) refl

parse_entry-Says :
    (line at : Bytes) → IsBehindLast line at → parse_line line ≡ parse_entry at → Says line
unfolding parse_entry
parse_entry-Says line at behind e = elim (span_word-cases at) [
  | inl (ends, all) ↦ inl (e ∙ rw (parse_entry, ends) refl, inr (at, behind, all))
  | inr (symbol, space, rest, split, is_space, ends) ↦ inr (
    inr ((span_word at).0, byte_at (skip_space rest), e ∙ rw (parse_entry, ends) refl),
    inr (symbol, space, rest, subst (IsBehindLast line) split behind, is_space),
  )
]

parse_line-Says : (line : Bytes) → Says line
parse_line-Says line = elim (Bool-cases (contains line separator)) [
  | inl found ↦
      let (b, f, e) = strstr-of_contains line separator found in
      let (at, ends, behind) =
        find_separator-some (suc (length line)) line none b f (omega arith) e in
      parse_entry-Says line at behind (parse_line_behind line at ends)
  | inr absent ↦
      let e = parse_line_no_separator line absent in
      elim (Bool-cases (all_space line)) [
        | inl white ↦ inr (inl (e ∙ rw white refl), inl (absent, white))
        | inr some_text ↦ inl (e ∙ rw some_text refl, inl (absent, some_text))
      ]
]

-- Some lines up to the first malformed one, or no malformed one.
abbrev pub FirstMalformed : List Bytes → Type 0
FirstMalformed lines =
    (before : List Bytes) × (line : Bytes) × (after : List Bytes) × (lines ≡ before ++ line ∷ after)
    × All WellFormed before
    × Malformed line

parse_nm_lines-cases :
    (abi : Abi) (state : NmState) (lines : List Bytes)
    → ((parse_nm_lines abi state lines ≡ none) × FirstMalformed lines)
      ⊎ ((result : NmState) × (parse_nm_lines abi state lines ≡ some result) × All WellFormed lines)
unfolding parse_nm_lines
parse_nm_lines-cases abi state [] = inr (state, refl, tt)
parse_nm_lines-cases abi state (line ∷ lines) = elim (parse_line-Says line) [
  | inl (e, bad) ↦ inl (rw (parse_nm_lines, e) refl, ([], line, lines, refl, tt, bad))
  | inr (inl e, good) ↦ elim (parse_nm_lines-cases abi state lines) [
    | inl (failed, (before, l, after, split, all, bad)) ↦ inl (
      rw (parse_nm_lines, e) failed,
      (line ∷ before, l, after, ap (λ t. line ∷ t) split, (good, all), bad),
    )
    | inr (result, done, all) ↦ inr (result, rw (parse_nm_lines, e) done, (good, all))
  ]
  | inr (inr (symbol, type, e), good) ↦
      elim (parse_nm_lines-cases abi (add_entry abi state symbol type) lines) [
        | inl (failed, (before, l, after, split, all, bad)) ↦ inl (
          rw (parse_nm_lines, e) failed,
          (line ∷ before, l, after, ap (λ t. line ∷ t) split, (good, all), bad),
        )
        | inr (result, done, all) ↦ inr (result, rw (parse_nm_lines, e) done, (good, all))
      ]
]

-- `parse_nm_output` fails where reading the output has failed or some line of it is malformed: there
-- is a first line that has no separator and is not white space, or has no white space behind its last
-- separator. Otherwise it succeeds, and every line is white space without a separator or has a symbol
-- with white space behind it behind its last separator.
pub parse_nm_output-cases :
    (abi : Abi) (state : NmState) (output : Bytes) (broken : Bool)
    → ((parse_nm_output abi state output broken ≡ none)
        × ((broken ≡ true) ⊎ FirstMalformed (read_lines output)))
      ⊎ ((result : NmState) × (parse_nm_output abi state output broken ≡ some result)
          × (broken ≡ false)
          × All WellFormed (read_lines output))
unfolding parse_nm_output
parse_nm_output-cases abi state output broken = elim (Bool-cases broken) [
  | inl lost ↦ inl (rw lost refl, inl lost)
  | inr whole ↦ elim (parse_nm_lines-cases abi state (read_lines output)) [
    | inl (failed, first) ↦ inl (rw whole failed, inr first)
    | inr (result, done, all) ↦ inr (result, rw whole done, whole, all)
  ]
]

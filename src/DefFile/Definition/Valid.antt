-- ===== src/DefFile/Definition/Valid.antt =====
-- Merging a definition file keeps the sets valid.
use hermetic_llvm.DefFile.Symbols.Rules.{insert_data-AreValid, insert_symbol-AreValid}
use hermetic_llvm.DefFile.Lines.{read_lines}
use hermetic_llvm.DefFile.Symbols.{SymbolSets, AreValid}
use hermetic_llvm.Bytes.{Bytes, has_prefix, codes, strstr, is_empty}
use hermetic_llvm.DefFile.Definition.{
  merge_line, merge_definition_file, merge_lines, skip_blanks, data_mark,
}
use hermetic_llvm.Prelude.{
  ◌≡◌, subst, inl, inr, Bool, true, false, ◌||◌, Option, none, some, List, [], ◌∷◌, arith,
  Bool-cases, Option-cases,
}

merge_line-AreValid :
    (sets : SymbolSets) (line : Bytes) → AreValid sets → AreValid (merge_line sets line)
unfolding merge_line
merge_line-AreValid sets line h =
    elim (Bool-cases (has_prefix line (codes "LIBRARY") || has_prefix line (codes "EXPORTS"))) [
      | inl header ↦ rw header h
      | inr other ↦ elim (Option-cases (strstr (skip_blanks line) data_mark)) [
        | inr (p, e) ↦ rw (other, e, merge_line) (insert_data-AreValid sets p.0 h)
        | inl e ↦ elim (Bool-cases (is_empty (skip_blanks line))) [
          | inl gone ↦ rw (other, e, gone, merge_line) h
          | inr kept ↦
              rw (other, e, kept, merge_line) (insert_symbol-AreValid sets (skip_blanks line) h)
        ]
      ]
    ]

merge_lines-AreValid :
    (lines : List Bytes) (sets : SymbolSets) → AreValid sets → AreValid (merge_lines sets lines)
unfolding merge_lines
merge_lines-AreValid [] sets h = h
merge_lines-AreValid (line ∷ lines) sets h =
    merge_lines-AreValid lines (merge_line sets line) (merge_line-AreValid sets line h)

pub merge_definition_file-AreValid :
    (sets : SymbolSets) (file : Option Bytes) (closes : Bool) {result : SymbolSets}
    → merge_definition_file sets file closes ≡ some result
    → AreValid sets
    → AreValid result
unfolding merge_definition_file
merge_definition_file-AreValid sets none closes e h = absurd (ground arith)
merge_definition_file-AreValid sets (some content) false e h = absurd (ground arith)
merge_definition_file-AreValid sets (some content) true e h =
    subst AreValid (ground arith) (merge_lines-AreValid (read_lines content) sets h)

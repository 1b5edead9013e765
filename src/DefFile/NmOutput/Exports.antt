-- ===== src/DefFile/NmOutput/Exports.antt =====
-- What `parse_nm_output` keeps true of the sets that it fills.
use hermetic_llvm.DefFile.Symbols.Rules.{
  BothPass, gnu_exportable, add_gnu-AreValid, msvc_exportable, add_gnu-BothPass, add_nm-BothPass,
  add_nm-AreValid,
}
use hermetic_llvm.DefFile.StringSet.Insert.{IsValid, string_set_insert-IsValid}
use hermetic_llvm.Bytes.{Bytes}
use hermetic_llvm.DefFile.Symbols.{AreValid}
use hermetic_llvm.DefFile.StringSet.{StringList, string_set_insert}
use hermetic_llvm.DefFile.NmOutput.{
  add_entry, parse_nm_lines, NmState, Abi, NmLine, is_import_pointer, parse_line, gnu, imp_prefix,
  entry, malformed, msvc, blank,
}
use hermetic_llvm.Prelude.{
  ℕ, ◌≡◌, refl, subst, ◌⊎◌, inl, inr, Bool, true, false, some, List, [], ◌∷◌, arith, if◌then◌else◌,
  length, drop,
}

-- The sets and the import pointers are valid.
pub record IsSound (state : NmState) : Type 0 where
  pub sets_valid : AreValid state.sets
  pub pointers_valid : IsValid state.import_pointers

-- What each rule may list.
abbrev pub exportable : Abi → Bytes → Bool
exportable gnu symbol = gnu_exportable symbol
exportable msvc symbol = msvc_exportable symbol

pointers-IsValid :
    (b : Bool) (set : StringList) (v : Bytes)
    → IsValid set
    → IsValid (if b then string_set_insert set v else set)
pointers-IsValid true set v h = string_set_insert-IsValid set v h
pointers-IsValid false set v h = h

add_entry-IsSound :
    (abi : Abi) (state : NmState) (s : Bytes) (t : ℕ)
    → IsSound state
    → IsSound (add_entry abi state s t)
unfolding add_entry
add_entry-IsSound gnu state s t h = record {
  sets_valid = add_gnu-AreValid state.sets s t h.sets_valid;
  pointers_valid =
      pointers-IsValid (is_import_pointer s t) state.import_pointers (drop (length imp_prefix) s)
        h.pointers_valid;
}
add_entry-IsSound msvc state s t h = record {
  sets_valid = add_nm-AreValid state.sets s t h.sets_valid;
  pointers_valid = h.pointers_valid;
}

add_entry-BothPass :
    (p : Bytes → Bool) (abi : Abi) (state : NmState) (s : Bytes) (t : ℕ)
    → ((v : Bytes) → exportable abi v ≡ true → p v ≡ true)
    → BothPass p state.sets
    → BothPass p (add_entry abi state s t).sets
unfolding add_entry
add_entry-BothPass p gnu state s t k h = add_gnu-BothPass p state.sets s t k h
add_entry-BothPass p msvc state s t k h = add_nm-BothPass p state.sets s t k h

pub NmLine-cases :
    (l : NmLine) → (l ≡ malformed) ⊎ (l ≡ blank) ⊎ ((s : Bytes) × (t : ℕ) × (l ≡ entry s t))
NmLine-cases malformed = inl refl
NmLine-cases blank = inr (inl refl)
NmLine-cases (entry s t) = inr (inr (s, t, refl))

-- A property of states that every entry keeps holds after the loop.
lines_inv :
    (P : NmState → Type 0) (abi : Abi)
    → ((state : NmState) (s : Bytes) (t : ℕ) → P state → P (add_entry abi state s t))
    → (lines : List Bytes) (state result : NmState) → P state
    → parse_nm_lines abi state lines ≡ some result
    → P result
unfolding parse_nm_lines
lines_inv P abi keep [] state result h e = subst P (cc) h
lines_inv P abi keep (line ∷ lines) state result h e = elim (NmLine-cases (parse_line line)) [
  | inl bad ↦ absurd (ground arith)
  | inr (inl skip) ↦ lines_inv P abi keep lines state result h (rw (skip, parse_nm_lines) at e)
  | inr (inr (s, t, q)) ↦
      lines_inv P abi keep lines (add_entry abi state s t) result (keep state s t h)
        (rw (q, parse_nm_lines) at e)
]

module _ (abi : Abi) (lines : List Bytes) (state result : NmState)
    (parsed : parse_nm_lines abi state lines ≡ some result) where
  -- The loop keeps the sets and the import pointers valid.
  pub parse_nm_lines-IsSound : IsSound state → IsSound result
  parse_nm_lines-IsSound h =
      lines_inv IsSound abi (λ s n t. add_entry-IsSound abi s n t) lines state result h parsed

  -- What holds of the sets' members and of all that the rule may list holds of the result's.
  pub parse_nm_lines-BothPass :
      (p : Bytes → Bool)
      → ((v : Bytes) → exportable abi v ≡ true → p v ≡ true)
      → BothPass p state.sets
      → BothPass p result.sets
  parse_nm_lines-BothPass p k h =
      lines_inv (λ s. BothPass p s.sets) abi (λ s n t. add_entry-BothPass p abi s n t k) lines state
        result h parsed

-- ===== src/DefFile/NmOutput/Members.antt =====
-- The exact members of the sets after `parse_nm_output`, line by line.
use hermetic_llvm.DefFile.Lines.{read_lines}
use hermetic_llvm.DefFile.NmOutput.Exports.{NmLine-cases}
use hermetic_llvm.DefFile.StringSet.Insert.{string_set_insert-elem}
use hermetic_llvm.DefFile.StringSet.Order.{elem}
use hermetic_llvm.DefFile.Symbols.{
  add_nm_symbol, add_gnu_nm_symbol, gnu_skipped, normalize_stdcall, nm_skipped, is_data_type,
}
use hermetic_llvm.Bytes.{Bytes, str_eq}
use hermetic_llvm.DefFile.NmOutput.{
  add_entry, NmLine, Abi, NmState, entry, blank, parse_line, is_import_pointer, parse_nm_lines,
  imp_prefix, gnu, msvc, parse_nm_output,
}
use hermetic_llvm.Prelude.{
  ℕ, ◌≡◌, refl, inl, inr, Bool, true, false, not, ◌&&◌, ◌||◌, some, List, [], ◌∷◌, arith, ◌==◌,
  length, drop,
}

-- Whether one line lists `w` as code, as data, or as an import pointer, by the rule of the ABI.
abbrev pub lists_code : Abi → Bytes → NmLine → Bool
lists_code gnu w (entry s t) = not (gnu_skipped s t) && t == b'T' && str_eq s w
lists_code msvc w (entry s t) =
    not (nm_skipped (normalize_stdcall s) t)
    && not (is_data_type t)
    && str_eq (normalize_stdcall s) w
lists_code abi w _ = false

abbrev pub lists_data : Abi → Bytes → NmLine → Bool
lists_data gnu w (entry s t) = not (gnu_skipped s t) && not (t == b'T') && str_eq s w
lists_data msvc w (entry s t) =
    not (nm_skipped (normalize_stdcall s) t) && is_data_type t && str_eq (normalize_stdcall s) w
lists_data abi w _ = false

abbrev pub lists_pointer : Abi → Bytes → NmLine → Bool
lists_pointer gnu w (entry s t) = is_import_pointer s t && str_eq (drop (length imp_prefix) s) w
lists_pointer abi w _ = false

-- Whether some line does.
abbrev pub any_line : (NmLine → Bool) → List Bytes → Bool
any_line lists [] = false
any_line lists (line ∷ lines) = lists (parse_line line) || any_line lists lines

add_entry-code :
    (abi : Abi) (state : NmState) (s : Bytes) (t : ℕ) (w : Bytes)
    → elem w (add_entry abi state s t).sets.symbols.values
      ≡ (elem w state.sets.symbols.values || lists_code abi w (entry s t))
unfolding add_entry add_nm_symbol add_gnu_nm_symbol
add_entry-code gnu state s t w = ground (arith, string_set_insert-elem state.sets.symbols s w)
add_entry-code msvc state s t w =
    ground (arith, string_set_insert-elem state.sets.symbols (normalize_stdcall s) w)

add_entry-data :
    (abi : Abi) (state : NmState) (s : Bytes) (t : ℕ) (w : Bytes)
    → elem w (add_entry abi state s t).sets.data_symbols.values
      ≡ (elem w state.sets.data_symbols.values || lists_data abi w (entry s t))
unfolding add_entry add_nm_symbol add_gnu_nm_symbol
add_entry-data gnu state s t w = ground (arith, string_set_insert-elem state.sets.data_symbols s w)
add_entry-data msvc state s t w =
    ground (arith, string_set_insert-elem state.sets.data_symbols (normalize_stdcall s) w)

add_entry-pointer :
    (abi : Abi) (state : NmState) (s : Bytes) (t : ℕ) (w : Bytes)
    → elem w (add_entry abi state s t).import_pointers.values
      ≡ (elem w state.import_pointers.values || lists_pointer abi w (entry s t))
unfolding add_entry
add_entry-pointer gnu state s t w =
    ground (arith, string_set_insert-elem state.import_pointers (drop (length imp_prefix) s) w)
add_entry-pointer msvc state s t w = ground arith

ignores_code : (abi : Abi) (w : Bytes) → lists_code abi w blank ≡ false
ignores_code gnu w = refl
ignores_code msvc w = refl

ignores_data : (abi : Abi) (w : Bytes) → lists_data abi w blank ≡ false
ignores_data gnu w = refl
ignores_data msvc w = refl

ignores_pointer : (abi : Abi) (w : Bytes) → lists_pointer abi w blank ≡ false
ignores_pointer gnu w = refl
ignores_pointer msvc w = refl

pub output_lines :
    (abi : Abi) (state result : NmState) (output : Bytes) (broken : Bool)
    → parse_nm_output abi state output broken ≡ some result
    → parse_nm_lines abi state (read_lines output) ≡ some result
unfolding parse_nm_output
output_lines abi state result output true e = absurd (ground arith)
output_lines abi state result output false e = e

module _ (list_of : NmState → List Bytes) (w : Bytes) (lists : NmLine → Bool) (abi : Abi)
    (ignores_blank : lists blank ≡ false)
    (adds : (state : NmState) (s : Bytes) (t : ℕ)
      → elem w (list_of (add_entry abi state s t))
        ≡ (elem w (list_of state) || lists (entry s t))) where
  lines_elem :
      (lines : List Bytes) (state result : NmState)
      → parse_nm_lines abi state lines ≡ some result
      → elem w (list_of result) ≡ (elem w (list_of state) || any_line lists lines)
  unfolding parse_nm_lines
  lines_elem [] state result e = ground arith
  lines_elem (line ∷ lines) state result e = elim (NmLine-cases (parse_line line)) [
    | inl bad ↦ absurd (ground arith)
    | inr (inl skip) ↦
        let rest = lines_elem lines state result (rw (skip, parse_nm_lines) at e) in
        rw (skip, ignores_blank) rest
    | inr (inr (s, t, q)) ↦
        let rest =
          lines_elem lines (add_entry abi state s t) result (rw (q, parse_nm_lines) at e) in
        rw q (ground (arith, adds state s t))
  ]

-- Where `parse_nm_output` succeeds, the symbols, the data symbols and the import pointers are
-- exactly the old ones and those that some line of the output lists as such.
pub parse_nm_output_members :
    (abi : Abi) (state result : NmState) (output : Bytes) (broken : Bool)
    → parse_nm_output abi state output broken ≡ some result
    → (w : Bytes)
    → (elem w result.sets.symbols.values
        ≡ (elem w state.sets.symbols.values || any_line (lists_code abi w) (read_lines output)))
      × (elem w result.sets.data_symbols.values ≡ (
          elem w state.sets.data_symbols.values || any_line (lists_data abi w) (read_lines output)))
      × (elem w result.import_pointers.values ≡ (
          elem w state.import_pointers.values
          || any_line (lists_pointer abi w) (read_lines output)))
parse_nm_output_members abi state result output broken e w =
    let parsed = output_lines abi state result output broken e in
    let lines = read_lines output in
    (
      lines_elem (λ s. s.sets.symbols.values) w (lists_code abi w) abi (ignores_code abi w)
          (λ s n t. add_entry-code abi s n t w) lines state result parsed,
      lines_elem (λ s. s.sets.data_symbols.values) w (lists_data abi w) abi (ignores_data abi w)
          (λ s n t. add_entry-data abi s n t w) lines state result parsed,
      lines_elem (λ s. s.import_pointers.values) w (lists_pointer abi w) abi (ignores_pointer abi w)
          (λ s n t. add_entry-pointer abi s n t w) lines state result parsed,
    )

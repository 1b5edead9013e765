-- ===== src/DefFile/Generator/Safety.antt =====
-- The symbols that llvm-nm's output yields, exactly, and that no search faults.
use hermetic_llvm.DefFile.Lines.{read_lines}
use hermetic_llvm.DefFile.Symbols.Imports.{
  without, without-AreValid, remove_imported_symbols-without, elem-kept,
}
use hermetic_llvm.DefFile.StringSet.{empty_list}
use hermetic_llvm.DefFile.NmOutput.Exports.{IsSound, parse_nm_lines-IsSound}
use hermetic_llvm.DefFile.NmOutput.Members.{
  lists_code, any_line, lists_data, output_lines, lists_pointer, parse_nm_output_members,
}
use hermetic_llvm.Bytes.{Bytes, codes}
use hermetic_llvm.DefFile.NmOutput.{Abi, NmState, NmLine, parse_nm_output}
use hermetic_llvm.DefFile.StringSet.Order.{elem}
use hermetic_llvm.DefFile.Symbols.{SymbolSets, AreValid}
use hermetic_llvm.DefFile.Generator.{Outside, World, nm_symbols, nm_arguments}
use hermetic_llvm.Prelude.{
  ◌≡◌, ◌⊎◌, inl, inr, Bool, true, false, not, ◌&&◌, ◌||◌, none, some, [], ◌∷◌, arith, Option-cases,
}

-- The members that the output of llvm-nm leaves in one list: the old ones and the listed ones,
-- but no imported one.
abbrev pub expected : Abi → Bytes → (Abi → Bytes → NmLine → Bool) → Bytes → Bool → Bool
expected abi w lists output old =
    (old || any_line (lists abi w) (read_lines output))
    && not (any_line (lists_pointer abi w) (read_lines output))

-- `found` are the symbols that llvm-nm reports in a world for the objects of the response file.
pub record IsExact (out : Outside) (abi : Abi) (sets : SymbolSets) (llvm_nm : Bytes) (world : World)
    (found : SymbolSets) : Type 0 where
  pub output : Bytes
  pub ran :
      out.nm
        (llvm_nm
          ∷ codes "-A"
          ∷ codes "-g"
          ∷ codes "--defined-only"
          ∷ codes "--format=posix"
          ∷ (b'@' ∷ out.response_path)
          ∷ [])
        world.files
      ≡ some (output, false)
  pub valid : AreValid found
  pub code :
      (w : Bytes)
      → elem w found.symbols.values ≡ expected abi w lists_code output (elem w sets.symbols.values)
  pub dat :
      (w : Bytes)
      → elem w found.data_symbols.values
        ≡ expected abi w lists_data output (elem w sets.data_symbols.values)

abbrev start : SymbolSets → NmState
start sets = record { sets = sets; import_pointers = empty_list }

start-IsSound : (sets : SymbolSets) → AreValid sets → IsSound (start sets)
start-IsSound sets h = record {
  sets_valid = h;
  pointers_valid = record { room = omega arith; sorted = tt };
}

without-IsExact :
    (out : Outside) (abi : Abi) (sets : SymbolSets) (llvm_nm output : Bytes) (world : World)
    (state : NmState)
    → AreValid sets
    → out.nm (nm_arguments llvm_nm out.response_path) world.files ≡ some (output, false)
    → parse_nm_output abi (start sets) output false ≡ some state
    → IsExact out abi sets llvm_nm world (without state.sets state.import_pointers)
unfolding elem
without-IsExact out abi sets llvm_nm output world state h ran e =
    let parsed = output_lines abi (start sets) state output false e in
    let sound =
      parse_nm_lines-IsSound abi (read_lines output) (start sets) state parsed
        (start-IsSound sets h) in
    record {
      output = output;
      ran = ran;
      valid = without-AreValid state.sets state.import_pointers sound.sets_valid;
      code = λ w.
          let (a, b, c) = parse_nm_output_members abi (start sets) state output false e w in
          ground (arith, elem-kept state.import_pointers.values state.sets.symbols.values w, a, c);
      dat = λ w.
          let (a, b, c) = parse_nm_output_members abi (start sets) state output false e w in
          ground
            (arith, elem-kept state.import_pointers.values state.sets.data_symbols.values w, b, c);
    }

-- What a run that ended with `output` comes to.
abbrev Comes : Outside → Abi → SymbolSets → Bytes → World → Type 0
Comes out abi sets llvm_nm world =
    (nm_symbols out abi sets llvm_nm world ≡ some none)
    ⊎ ((found : SymbolSets) × (nm_symbols out abi sets llvm_nm world ≡ some (some found))
        × IsExact out abi sets llvm_nm world found)

module _ (out : Outside) (abi : Abi) (sets : SymbolSets) (llvm_nm : Bytes) (world : World)
    (h : AreValid sets) where
  ran_well :
      (output : Bytes)
      → out.nm (nm_arguments llvm_nm out.response_path) world.files ≡ some (output, false)
      → Comes out abi sets llvm_nm world
  ran_well output ran = elim (Option-cases (parse_nm_output abi (start sets) output false)) [
    | inl bad ↦ inl (unfold nm_symbols in ground arith)
    | inr (state, e) ↦
        let parsed = output_lines abi (start sets) state output false e in
        let sound =
          parse_nm_lines-IsSound abi (read_lines output) (start sets) state parsed
            (start-IsSound sets h) in
        let removed =
          remove_imported_symbols-without state.sets state.import_pointers
            sound.pointers_valid.sorted in
        inr (
          without state.sets state.import_pointers,
          unfold nm_symbols in ground arith,
          without-IsExact out abi sets llvm_nm output world state h ran e,
        )
  ]

  ran_to :
      (p : Bytes × Bool)
      → out.nm (nm_arguments llvm_nm out.response_path) world.files ≡ some p
      → Comes out abi sets llvm_nm world
  ran_to (output, true) ran = inl (unfold nm_symbols parse_nm_output in ground arith)
  ran_to (output, false) ran = ran_well output ran

  -- A run either fails, or yields exactly what its output says; it never faults.
  pub nm_symbols_cases : Comes out abi sets llvm_nm world
  nm_symbols_cases =
      elim (Option-cases (out.nm (nm_arguments llvm_nm out.response_path) world.files)) [
        | inl failed ↦ inl (unfold nm_symbols in ground arith)
        | inr (p, ran) ↦ ran_to p ran
      ]

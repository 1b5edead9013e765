-- ===== src/DefFile/Generator/Frame.antt =====
-- Which files the steps of the generator can change.
use hermetic_llvm.DefFile.StringSet.{empty_list}
use hermetic_llvm.DefFile.NmOutput.{Abi}
use hermetic_llvm.DefFile.Symbols.{SymbolSets, no_symbols}
use hermetic_llvm.Bytes.{Bytes, str_eq, codes}
use hermetic_llvm.DefFile.Generator.{
  main, Status, Outside, Outcome, World, discover_object_symbols, status, write_def_file,
  write_symbols, run_nm, put, ok, remove_file, parse_abi, crashed, failure, response_text, exited,
  expand_inputs, required_env, fault, nm_symbols, left_text, print_pieces, def_file_pieces,
}
use hermetic_llvm.Prelude.{
  ◌≡◌, refl, inl, inr, false, none, some, List, [], ◌∷◌, arith, Option-cases,
}

abbrev pub world_of : Status → World
world_of (status _ world) = world
world_of (crashed world) = world

abbrev outcome_world : {A : Type 0} → Outcome A → World
outcome_world (ok _ world) = world
outcome_world (failure world) = world
outcome_world (exited _ world) = world
outcome_world (fault world) = world

module _ (out : Outside) (p : Bytes) where
  put-other :
      (world : World) (path content : Bytes)
      → str_eq p path ≡ false
      → (put world path content).files p ≡ world.files p
  unfolding put
  put-other world path content h = rw h refl

  remove-other :
      (world : World) (path : Bytes)
      → str_eq p path ≡ false
      → (remove_file out world path).files p ≡ world.files p
  unfolding remove_file
  remove-other world path h = ground arith

  run_nm-other :
      (abi : Abi) (sets : SymbolSets) (world : World)
      → str_eq p out.response_path ≡ false
      → (outcome_world (run_nm out abi sets world)).files p ≡ world.files p
  unfolding run_nm
  run_nm-other abi sets world h =
      let removed = remove-other world out.response_path h in
      elim (Option-cases (required_env out (codes "LLVM_NM"))) [
        | inl unset ↦ ground arith
        | inr (program, set) ↦ elim (Option-cases (nm_symbols out abi sets program world)) [
          | inl bad ↦ ground arith
          | inr (none, e) ↦ ground arith
          | inr (some found, e) ↦ ground arith
        ]
      ]

  discover-other :
      (abi : Abi) (sets : SymbolSets) (objects : List Bytes) (world : World)
      → str_eq p out.response_path ≡ false
      → (outcome_world (discover_object_symbols out abi sets objects world)).files p ≡ world.files p
  unfolding discover_object_symbols
  discover-other abi sets [] world h = refl
  discover-other abi sets (object ∷ objects) world h =
      let path = out.response_path in
      let text = left_text out path (response_text out [] (object ∷ objects)).0 in
      let before = put world path text in
      let same = put-other world path text h in
      ground (arith, remove-other before out.response_path h, run_nm-other abi sets before h)

  write_def_file-other :
      (sets : SymbolSets) (path dll_name : Bytes) (world : World)
      → str_eq p path ≡ false
      → (outcome_world (write_def_file out sets path dll_name world)).files p ≡ world.files p
  unfolding write_def_file
  write_def_file-other sets path dll_name world h = ground (
    arith,
    put-other world path
        (left_text out path (print_pieces out path [] (def_file_pieces sets dll_name))) h,
  )

  write_symbols-other :
      (path dll_name : Bytes) (found : Outcome SymbolSets)
      → str_eq p path ≡ false
      → (world_of (write_symbols out path dll_name found)).files p ≡ (outcome_world found).files p
  unfolding write_symbols
  write_symbols-other path dll_name (ok sets world) h =
      ground (arith, write_def_file-other sets path dll_name world h)
  write_symbols-other path dll_name (failure world) h = refl
  write_symbols-other path dll_name (exited code world) h = refl
  write_symbols-other path dll_name (fault world) h = refl

-- However `main` ends, it has changed no file but the output and the response file.
pub main-other :
    (out : Outside) (path : Bytes) (args : List Bytes) (world : World) (p : Bytes)
    → str_eq p path ≡ false
    → str_eq p out.response_path ≡ false
    → (world_of (main out (path ∷ args) world)).files p ≡ world.files p
unfolding main
main-other out path [] world p h k = refl
main-other out path (dll_name ∷ []) world p h k = refl
main-other out path (dll_name ∷ input ∷ inputs) world p h k = elim (Option-cases (parse_abi out)) [
  | inl bad ↦ ground arith
  | inr (abi, e) ↦
      elim (Option-cases (
        expand_inputs out world (record { sets = no_symbols; objects = empty_list })
          (input ∷ inputs))) [
            | inl bad ↦ ground arith
            | inr (found, g) ↦
                let symbols =
                  discover_object_symbols out abi found.sets found.objects.values world in
                ground (
                  arith,
                  write_symbols-other out p path dll_name symbols h,
                  discover-other out p abi found.sets found.objects.values world k,
                )
          ]
]

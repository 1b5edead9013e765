-- ===== src/DefFile/Generator/Printed.antt =====
-- What `main` has done when it ends with status 0, and that it never faults.
use hermetic_llvm.DefFile.Generator.Discover.{discover-no_fault, discover_object_symbols_lem}
use hermetic_llvm.DefFile.Definition.{def_file_text}
use hermetic_llvm.DefFile.Generator.Pieces.{print_pieces-def_file_text}
use hermetic_llvm.DefFile.Generator.Expand.{expand_inputs-AreValid}
use hermetic_llvm.DefFile.StringSet.{empty_list}
use hermetic_llvm.DefFile.NmOutput.{Abi}
use hermetic_llvm.Bytes.{Bytes, strcmp_refl}
use hermetic_llvm.DefFile.Generator.{
  Outside, write_symbols, main, write_def_file, Outcome, put, World, crashed, Inputs, fault, status,
  parse_abi, expand_inputs, exited, ok, left_text, failure, discover_object_symbols, run_nm,
}
use hermetic_llvm.DefFile.Symbols.{AreValid, no_symbols, SymbolSets}
use hermetic_llvm.Prelude.{
  ◌≡◌, refl, ◌≢◌, inl, inr, Option, some, List, [], ◌∷◌, arith, Option-cases, subst, sym, none,
}

abbrev inputs_of : Outside → List Bytes → World → Option Inputs
inputs_of out args world =
    expand_inputs out world (record { sets = no_symbols; objects = empty_list }) args

nothing-AreValid : AreValid no_symbols
nothing-AreValid = record {
  symbols_valid = record { room = omega arith; sorted = tt };
  data_valid = record { room = omega arith; sorted = tt };
}

write_symbols-no_crash :
    (out : Outside) (path dll_name : Bytes) (found : Outcome SymbolSets) (world : World)
    → ((w : World) → found ≢ fault w)
    → write_symbols out path dll_name found ≢ crashed world
unfolding write_symbols write_def_file
write_symbols-no_crash out path dll_name (ok sets w) world h e = ground arith
write_symbols-no_crash out path dll_name (failure w) world h e = ground arith
write_symbols-no_crash out path dll_name (exited code w) world h e = ground arith
write_symbols-no_crash out path dll_name (fault w) world h e = h w refl

-- No search of `main` in a set reads outside the set's list.
main-no_crash :
    (out : Outside) (args : List Bytes) (world world' : World)
    → main out args world ≢ crashed world'
unfolding main
main-no_crash out [] world world' e = ground arith
main-no_crash out (path ∷ []) world world' e = ground arith
main-no_crash out (path ∷ dll_name ∷ []) world world' e = ground arith
main-no_crash out (path ∷ dll_name ∷ input ∷ inputs) world world' e =
    elim (Option-cases (parse_abi out)) [
      | inl bad ↦ ground arith
      | inr (abi, a) ↦ elim (Option-cases (inputs_of out (input ∷ inputs) world)) [
        | inl bad ↦ ground arith
        | inr (found, f) ↦
            let valid =
              expand_inputs-AreValid out world (input ∷ inputs) _ found f nothing-AreValid in
            write_symbols-no_crash out path dll_name
              (discover_object_symbols out abi found.sets found.objects.values world) world'
              (discover-no_fault out abi found.sets valid found.objects.values world) (ground arith)
      ]
    ]

-- A run of `main` that has printed the exports.
pub record IsPrinted (out : Outside) (path dll_name : Bytes) (args : List Bytes)
    (world world' : World) : Type 0 where
  pub abi : Abi
  pub chosen : parse_abi out ≡ some abi
  pub inputs : Inputs
  pub expanded :
      expand_inputs out world (record { sets = no_symbols; objects = empty_list }) args
      ≡ some inputs
  pub symbols : SymbolSets
  pub before : World
  pub discovered :
      discover_object_symbols out abi inputs.sets inputs.objects.values world ≡ ok symbols before
  pub valid : AreValid symbols
  pub printed : world'.files path ≡ some (def_file_text symbols dll_name)

write_symbols_zero :
    (out : Outside) (path dll_name : Bytes) (found : Outcome SymbolSets) (world' : World)
    → ((before piece : Bytes) → out.prints path before piece ≡ none)
    → write_symbols out path dll_name found ≡ status 0 world'
    → ((w : World) → found ≢ exited 0 w)
    → (symbols : SymbolSets) × (before : World) × (found ≡ ok symbols before)
      × (world'.files path ≡ some (def_file_text symbols dll_name))
unfolding write_symbols write_def_file put left_text
write_symbols_zero out path dll_name (ok sets w) world' p e h = (
  sets,
  w,
  refl,
  ground (arith, strcmp_refl path, print_pieces-def_file_text out path dll_name sets p),
)
write_symbols_zero out path dll_name (failure w) world' p e h = absurd (ground arith)
write_symbols_zero out path dll_name (exited code w) world' p e h = absurd (h w (ground arith))
write_symbols_zero out path dll_name (fault w) world' p e h = absurd (ground arith)

discover-exit :
    (out : Outside) (abi : Abi) (sets : SymbolSets) (objects : List Bytes) (world w : World)
    → discover_object_symbols out abi sets objects world ≢ exited 0 w
unfolding discover_object_symbols run_nm
discover-exit out abi sets [] world w e = ground arith
discover-exit out abi sets (object ∷ objects) world w e = ground arith

discovered-AreValid :
    (out : Outside) (abi : Abi) (sets : SymbolSets) (objects : List Bytes) (world : World)
    (result : SymbolSets) (world' : World)
    → AreValid sets
    → discover_object_symbols out abi sets objects world ≡ ok result world'
    → AreValid result
discovered-AreValid out abi sets objects world result world' h e =
    elim (discover_object_symbols_lem out abi sets h objects world result world' e) [
      | inl (_, same, _) ↦ subst AreValid (sym same) h
      | inr d ↦ d.exact.valid
    ]

-- Where no `fprintf` to the output file fails, whose results the program ignores, and `main` ends with
-- status 0, it has expanded all inputs and discovered the symbols of the
-- objects among them, the two sets are strictly ascending, and the output file holds exactly the
-- definition file that is printed from them.
pub main-IsPrinted :
    (out : Outside) (path dll_name input : Bytes) (inputs : List Bytes) (world world' : World)
    → ((before piece : Bytes) → out.prints path before piece ≡ none)
    → main out (path ∷ dll_name ∷ input ∷ inputs) world ≡ status 0 world'
    → IsPrinted out path dll_name (input ∷ inputs) world world'
unfolding main
main-IsPrinted out path dll_name input inputs world world' p e =
    elim (Option-cases (parse_abi out)) [
      | inl bad ↦ absurd (ground arith)
      | inr (abi, a) ↦ elim (Option-cases (inputs_of out (input ∷ inputs) world)) [
        | inl bad ↦ absurd (ground arith)
        | inr (found, f) ↦
            let valid =
              expand_inputs-AreValid out world (input ∷ inputs)
                (record { sets = no_symbols; objects = empty_list }) found f nothing-AreValid in
            let (symbols, before, d, text) =
              write_symbols_zero out path dll_name
                (discover_object_symbols out abi found.sets found.objects.values world) world' p
                (ground arith) (discover-exit out abi found.sets found.objects.values world) in
            record {
              abi = abi;
              chosen = a;
              inputs = found;
              expanded = f;
              symbols = symbols;
              before = before;
              discovered = d;
              valid =
                  discovered-AreValid out abi found.sets found.objects.values world symbols before
                    valid d;
              printed = text;
            }
      ]
    ]

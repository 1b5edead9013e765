-- ===== src/DefFile/Generator/Discover.antt =====
-- What `discover_object_symbols` and `main` come to.
use hermetic_llvm.Bytes.{Bytes, strcmp_refl, codes, has_byte, str_eq}
use hermetic_llvm.DefFile.Symbols.{SymbolSets, AreValid}
use hermetic_llvm.DefFile.NmOutput.{Abi}
use hermetic_llvm.DefFile.Generator.{
  Outside, run_nm, World, ok, required_env, remove_file, fault, nm_symbols, discover_object_symbols,
  response_text, put, left_text, quoted_line,
}
use hermetic_llvm.Prelude.{
  ◌≡◌, ◌≢◌, inl, inr, true, none, some, arith, Option-cases, List, subst, any_of, sym, ap, ◌∙◌,
  ◌++◌, append_assoc, append-nil, Bool-cases, false, ◌∷◌, [], ◌⊎◌, refl,
}
use hermetic_llvm.DefFile.Generator.Safety.{nm_symbols_cases, IsExact}

-- Where `run_nm` succeeds: the program that it ran, what that found, and the removed file.
pub record Ran (out : Outside) (abi : Abi) (sets : SymbolSets) (world : World) (result : SymbolSets)
    (world' : World) : Type 0 where
  program : Bytes
  named : required_env out (codes "LLVM_NM") ≡ some program
  found : nm_symbols out abi sets program world ≡ some (some result)
  removable : out.removes out.response_path ≡ true
  final : world' ≡ remove_file out world out.response_path

module _ (out : Outside) (abi : Abi) (sets : SymbolSets) (world : World) (result : SymbolSets)
    (world' : World) where
  run_nm-Ran : run_nm out abi sets world ≡ ok result world' → Ran out abi sets world result world'
  unfolding run_nm
  run_nm-Ran e = elim (Option-cases (required_env out (codes "LLVM_NM"))) [
    | inl unset ↦ absurd (ground arith)
    | inr (program, set) ↦ elim (Option-cases (nm_symbols out abi sets program world)) [
      | inl bad ↦ absurd (ground arith)
      | inr (none, bad) ↦ absurd (ground arith)
      | inr (some r, good) ↦ record {
        program = program;
        named = set;
        found = ground arith;
        removable = ground arith;
        final = ground arith;
      }
    ]
  ]

  removed_absent : Ran out abi sets world result world' → world'.files out.response_path ≡ none
  unfolding remove_file
  removed_absent r = ground (arith, r.final, r.removable, strcmp_refl out.response_path)

-- No run of llvm-nm faults.
run_nm-no_fault :
    (out : Outside) (abi : Abi) (sets : SymbolSets) (world world' : World)
    → AreValid sets
    → run_nm out abi sets world ≢ fault world'
unfolding run_nm
run_nm-no_fault out abi sets world world' h e =
    elim (Option-cases (required_env out (codes "LLVM_NM"))) [
      | inl unset ↦ ground arith
      | inr (program, set) ↦ elim (nm_symbols_cases out abi sets program world h) [
        | inl bad ↦ ground arith
        | inr (found, good, exact) ↦ ground arith
      ]
    ]

-- The text of a response file.
abbrev pub quoted_lines : List Bytes → Bytes
quoted_lines [] = []
quoted_lines (object ∷ objects) = b'"' ∷ (object ++ (b'"' ∷ b'\n' ∷ quoted_lines objects))

response_text-quoted_lines :
    (out : Outside) (written : Bytes) (objects : List Bytes)
    → (response_text out written objects).1 ≡ true
    → ((response_text out written objects).0 ≡ written ++ quoted_lines objects)
      × (any_of (λ (object : Bytes). has_byte object b'"') objects ≡ false)
unfolding response_text
response_text-quoted_lines out written [] e = (sym (append-nil written), refl)
response_text-quoted_lines out written (object ∷ objects) e =
    let line = quoted_line object in
    elim (Bool-cases (has_byte object b'"')) [
      | inl quoted ↦ absurd (ground arith)
      | inr clean ↦ elim (Option-cases (out.prints out.response_path written line)) [
        | inr (n, cut) ↦ absurd (ground arith)
        | inl whole ↦
            let (text, others) =
              response_text-quoted_lines out (written ++ line) objects (ground arith) in
            let moved : (written ++ line) ++ quoted_lines objects
                ≡ written ++ quoted_lines (object ∷ objects) =
              append_assoc written line (quoted_lines objects)
              ∙ ap (λ t. written ++ b'"' ∷ t)
                  (append_assoc object (b'"' ∷ b'\n' ∷ []) (quoted_lines objects)) in
            (rw (response_text, clean, whole) (text ∙ moved), rw clean others)
      ]
    ]

-- What a successful discovery has found: the symbols of a run of llvm-nm in a world in which the
-- response file lists exactly the objects, and all other files are those of the first world.
pub record Discovered (out : Outside) (abi : Abi) (sets : SymbolSets) (objects : List Bytes)
    (world : World) (result : SymbolSets) (world' : World) : Type 0 where
  pub program : Bytes
  pub named : required_env out (codes "LLVM_NM") ≡ some program
  pub handed : World
  pub unquoted : any_of (λ (object : Bytes). has_byte object b'"') objects ≡ false
  pub listed : handed.files out.response_path ≡ some (quoted_lines objects)
  pub others : (p : Bytes) → (str_eq p out.response_path ≡ true) ⊎ (handed.files p ≡ world.files p)
  pub exact : IsExact out abi sets program handed result
  pub removed : world'.files out.response_path ≡ none

put_others :
    (world : World) (path content p : Bytes)
    → (str_eq p path ≡ true) ⊎ ((put world path content).files p ≡ world.files p)
unfolding put
put_others world path content p = elim (Bool-cases (str_eq p path)) [
  | inl same ↦ inl same
  | inr other ↦ inr (rw other refl)
]

module _ (out : Outside) (abi : Abi) (sets : SymbolSets) (valid : AreValid sets) where
  discover_run :
      (object : Bytes) (objects : List Bytes) (world : World) (result : SymbolSets) (world' : World)
      → discover_object_symbols out abi sets (object ∷ objects) world ≡ ok result world'
      → ((response_text out [] (object ∷ objects)).1 ≡ true)
        × (run_nm out abi sets
              (put world out.response_path (response_text out [] (object ∷ objects)).0)
            ≡ ok result world')
  unfolding discover_object_symbols left_text
  discover_run object objects world result world' e = ground arith

  Ran-IsExact :
      (world : World) (result : SymbolSets) (world' : World)
      → (r : Ran out abi sets world result world') → IsExact out abi sets (r.program) world result
  Ran-IsExact world result world' r = elim (nm_symbols_cases out abi sets r.program world valid) [
    | inl bad ↦ absurd (ground (arith, r.found))
    | inr (found, good, exact) ↦
        subst (IsExact out abi sets r.program world) (ground (arith, r.found)) exact
  ]

  put_listed :
      (objects : List Bytes) (world : World)
      → (response_text out [] objects).1 ≡ true
      → (put world out.response_path (response_text out [] objects).0).files out.response_path
        ≡ some (quoted_lines objects)
  unfolding put
  put_listed objects world complete =
      rw (strcmp_refl out.response_path)
        (ap some (response_text-quoted_lines out [] objects complete).0)

  -- Where `discover_object_symbols` succeeds, there was no object and nothing has changed; or no
  -- object's path has a quotation mark, llvm-nm was run, with its arguments, while the response file
  -- held exactly a quoted line for each object, in order, and every other file was as before, the
  -- symbols are exactly those that its output lists besides the old ones, without the imported ones,
  -- and the response file is gone.
  pub discover_object_symbols_lem :
      (objects : List Bytes) (world : World) (result : SymbolSets) (world' : World)
      → discover_object_symbols out abi sets objects world ≡ ok result world'
      → ((objects ≡ []) × (result ≡ sets) × (world' ≡ world))
        ⊎ Discovered out abi sets objects world result world'
  unfolding discover_object_symbols
  discover_object_symbols_lem [] world result world' e = inl (refl, ground arith, ground arith)
  discover_object_symbols_lem (object ∷ objects) world result world' e =
      let (complete, ran) = discover_run object objects world result world' e in
      let text = (response_text out [] (object ∷ objects)).0 in
      let before = put world out.response_path text in
      let r = run_nm-Ran out abi sets before result world' ran in
      inr (record {
        program = r.program;
        named = r.named;
        handed = before;
        unquoted = (response_text-quoted_lines out [] (object ∷ objects) complete).1;
        listed = put_listed (object ∷ objects) world complete;
        others = put_others world out.response_path text;
        exact = Ran-IsExact before result world' r;
        removed = removed_absent out abi sets before result world' r;
      })

  pub discover-no_fault :
      (objects : List Bytes) (world world' : World)
      → discover_object_symbols out abi sets objects world ≢ fault world'
  unfolding discover_object_symbols
  discover-no_fault [] world world' e = ground arith
  discover-no_fault (object ∷ objects) world world' e =
      let text = (response_text out [] (object ∷ objects)).0 in
      let path = out.response_path in
      ground (
        arith,
        run_nm-no_fault out abi sets (put world path (left_text out path text)) world' valid,
      )

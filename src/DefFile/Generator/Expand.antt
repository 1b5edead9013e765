-- ===== src/DefFile/Generator/Expand.antt =====
-- The inputs fill valid sets.
use hermetic_llvm.DefFile.Definition.Valid.{merge_definition_file-AreValid}
use hermetic_llvm.DefFile.Definition.{is_definition_file, merge_definition_file}
use hermetic_llvm.DefFile.Lines.{trim, read_lines}
use hermetic_llvm.DefFile.Symbols.{AreValid}
use hermetic_llvm.Bytes.{Bytes}
use hermetic_llvm.DefFile.Shell.{Decoded, argument, Error, decode_shell_argument, failed}
use hermetic_llvm.DefFile.Generator.{
  Outside, World, expand_inputs, add_lines, add_input, expand_input, Inputs,
}
use hermetic_llvm.Prelude.{
  ◌≡◌, refl, subst, ◌⊎◌, inl, inr, some, List, [], ◌∷◌, arith, ◌==◌, Bool-cases, Option-cases,
}

module _ (out : Outside) (world : World) where
  add_input-AreValid :
      (inputs : Inputs) (filename : Bytes) (result : Inputs)
      → add_input out world inputs filename ≡ some result
      → AreValid inputs.sets
      → AreValid result.sets
  unfolding add_input
  add_input-AreValid inputs filename result e h = elim (Bool-cases (is_definition_file filename)) [
    | inr object ↦ subst AreValid (ground arith) h
    | inl def ↦
        elim (Option-cases
          (merge_definition_file inputs.sets (world.files filename) (out.closes filename))) [
            | inl bad ↦ absurd (ground arith)
            | inr (sets, m) ↦
                subst AreValid (ground arith) (merge_definition_file-AreValid _ _ _ m h)
          ]
  ]

  Decoded-cases : (d : Decoded) → ((a : Bytes) × (d ≡ argument a)) ⊎ ((e : Error) × (d ≡ failed e))
  Decoded-cases (argument a) = inl (a, refl)
  Decoded-cases (failed e) = inr (e, refl)

  add_lines-AreValid :
      (lines : List Bytes) (inputs result : Inputs)
      → add_lines out world inputs lines ≡ some result
      → AreValid inputs.sets
      → AreValid result.sets
  unfolding add_lines
  add_lines-AreValid [] inputs result e h =
      let same : inputs ≡ result = ground arith in subst (λ (i : Inputs). AreValid i.sets) same h
  add_lines-AreValid (line ∷ lines) inputs result e h =
      elim (Decoded-cases (decode_shell_argument (trim line))) [
        | inr (why, d) ↦ absurd (ground arith)
        | inl (a, d) ↦ elim (Option-cases (add_input out world inputs a)) [
          | inl bad ↦ absurd (ground arith)
          | inr (inputs', m) ↦
              add_lines-AreValid lines inputs' result (ground arith)
                (add_input-AreValid inputs a inputs' m h)
        ]
      ]

  expand_input-AreValid :
      (arg : Bytes) (inputs result : Inputs)
      → expand_input out world inputs arg ≡ some result
      → AreValid inputs.sets
      → AreValid result.sets
  unfolding expand_input
  expand_input-AreValid [] inputs result e h = add_input-AreValid inputs (trim []) result e h
  expand_input-AreValid (c ∷ path) inputs result e h = elim (Bool-cases (c == b'@')) [
    | inr plain ↦ add_input-AreValid inputs (trim (c ∷ path)) result (ground arith) h
    | inl at ↦ elim (Option-cases (world.files path)) [
      | inl missing ↦ absurd (ground arith)
      | inr (content, r) ↦ elim (Option-cases (add_lines out world inputs (read_lines content))) [
        | inl bad ↦ absurd (ground arith)
        | inr (inputs', m) ↦ add_lines-AreValid (read_lines content) inputs result (ground arith) h
      ]
    ]
  ]

  pub expand_inputs-AreValid :
      (args : List Bytes) (inputs result : Inputs)
      → expand_inputs out world inputs args ≡ some result
      → AreValid inputs.sets
      → AreValid result.sets
  unfolding expand_inputs
  expand_inputs-AreValid [] inputs result e h =
      let same : inputs ≡ result = ground arith in subst (λ (i : Inputs). AreValid i.sets) same h
  expand_inputs-AreValid (arg ∷ args) inputs result e h =
      elim (Option-cases (expand_input out world inputs arg)) [
        | inl bad ↦ absurd (ground arith)
        | inr (inputs', m) ↦
            expand_inputs-AreValid args inputs' result (ground arith)
              (expand_input-AreValid arg inputs inputs' m h)
      ]

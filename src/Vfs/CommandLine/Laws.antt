-- ===== src/Vfs/CommandLine/Laws.antt =====
-- The arguments that are accepted, and when `main` returns 0.
use hermetic_llvm.Vfs.CommandLine.{parse_arguments, Arguments, no_arguments}
use hermetic_llvm.Bytes.{Bytes, strcmp, codes, str_eq, str_eq_iff}
use hermetic_llvm.Prelude.{
  ◌≡◌, refl, sym, ap, ◌∙◌, ◌≢◌, ◌⊎◌, inl, inr, Option, none, some, List, [], ◌∷◌, ◌++◌, append-nil,
  append_assoc, arith, Bool-cases,
}

-- One option with its value.
pub data Flag : Type 0 where
  root output : Bytes → Flag

-- The arguments that spell flags.
abbrev pub spell : List Flag → List Bytes
spell [] = []
spell (root path ∷ flags) = codes "-root" ∷ path ∷ spell flags
spell (output path ∷ flags) = codes "-output" ∷ path ∷ spell flags

abbrev pub roots_of : List Flag → List Bytes
roots_of [] = []
roots_of (root path ∷ flags) = path ∷ roots_of flags
roots_of (output path ∷ flags) = roots_of flags

-- The last output path, or the one before.
abbrev pub last_output : Option Bytes → List Flag → Option Bytes
last_output before [] = before
last_output before (root path ∷ flags) = last_output before flags
last_output before (output path ∷ flags) = last_output (some path) flags

abbrev pub arguments : List Bytes → Option Bytes → Arguments
arguments r o = record { roots = r; output_path = o }

pub parse-spell :
    (flags : List Flag) (args : Arguments)
    → parse_arguments (spell flags) args
      ≡ some (arguments (args.roots ++ roots_of flags) (last_output args.output_path flags))
unfolding parse_arguments strcmp
parse-spell [] args =
    ap (λ (r : List Bytes). some (arguments r args.output_path)) (sym (append-nil args.roots))
parse-spell (root path ∷ flags) args =
    parse-spell flags (record args { roots = args.roots ++ path ∷ [] })
    ∙ ap (λ (r : List Bytes). some (arguments r (last_output args.output_path flags)))
        (append_assoc args.roots (path ∷ []) (roots_of flags))
parse-spell (output path ∷ flags) args = parse-spell flags (record args { output_path = some path })

spelled_or_refused :
    (argv : List Bytes) (args : Arguments)
    → ((flags : List Flag) × (spell flags ≡ argv)) ⊎ (parse_arguments argv args ≡ none)
unfolding parse_arguments
spelled_or_refused [] args = inl ([], refl)
spelled_or_refused (option ∷ []) args = inr refl
spelled_or_refused (option ∷ value ∷ rest) args =
    let with_root = record args { roots = args.roots ++ value ∷ [] } in
    let with_output = record args { output_path = some value } in
    elim (Bool-cases (str_eq option (codes "-root"))) [
      | inl is_root ↦ elim (spelled_or_refused rest with_root) [
        | inl (flags, e) ↦
            let here = (str_eq_iff option (codes "-root")).0 is_root in
            inl (
              root value ∷ flags,
              ap (λ l. codes "-root" ∷ value ∷ l) e ∙ ap (λ o. o ∷ value ∷ rest) (sym here),
            )
        | inr bad ↦ inr (rw (parse_arguments, is_root) bad)
      ]
      | inr other ↦ elim (Bool-cases (str_eq option (codes "-output"))) [
        | inl is_output ↦ elim (spelled_or_refused rest with_output) [
          | inl (flags, e) ↦
              let here = (str_eq_iff option (codes "-output")).0 is_output in
              inl (
                output value ∷ flags,
                ap (λ l. codes "-output" ∷ value ∷ l) e ∙ ap (λ o. o ∷ value ∷ rest) (sym here),
              )
          | inr bad ↦ inr (rw (parse_arguments, other, is_output) bad)
        ]
        | inr unknown ↦ inr (rw (parse_arguments, other, unknown) refl)
      ]
    ]

-- The arguments of the program are accepted exactly where they spell flags, `-root` or `-output`, each
-- with a value; then the roots are those of the flags in their order, and the output path is the last one.
pub parse_arguments_lem :
    (argv : List Bytes)
    → ((flags : List Flag) × (spell flags ≡ argv)
        × (parse_arguments argv no_arguments
            ≡ some (arguments (roots_of flags) (last_output none flags))))
      ⊎ (((flags : List Flag) → spell flags ≢ argv) × (parse_arguments argv no_arguments ≡ none))
parse_arguments_lem argv = elim (spelled_or_refused argv no_arguments) [
  | inl (flags, e) ↦
      inl (
        flags,
        e,
        ap (λ l. parse_arguments l no_arguments) (sym e) ∙ parse-spell flags no_arguments,
      )
  | inr bad ↦ inr (
    (λ flags e.
        let good =
          ap (λ l. parse_arguments l no_arguments) (sym e) ∙ parse-spell flags no_arguments in
        absurd (ground (arith, good, bad))),
    bad,
  )
]

-- ===== src/LinkWrapper/Interface/Laws.antt =====
-- The commands of `main` in tools/internal/link_wrapper.c.
use hermetic_llvm.LinkWrapper.Interface.Dsym.{dsym_commands, make_dsym-Started}
use hermetic_llvm.LinkWrapper.Interface.Format.{
  interface_commands, format_commands, generate-Started, ScanSays,
}
use hermetic_llvm.LinkWrapper.Interface.Started.{
  value, Started, pure_zero-Started, unless_failed_some, required_env-Started, WhenZero,
  WhenZero-map, required_env-WhenZero, run_process-Started,
}
use hermetic_llvm.Bytes.{Bytes, codes, str_eq}
use hermetic_llvm.LinkWrapper.{
  System, World, run_process, required_env, ◌>>=◌, Result, returned, exit, waiting,
}
use hermetic_llvm.LinkWrapper.Interface.{
  Limits, main, Machine, make_interface, interface_wanted, generate_interface_library,
  wants_interface, unless_failed, make_dsym,
}
use hermetic_llvm.Prelude.{
  inl, inr, Bool, true, false, List, [], ◌∷◌, ◌++◌, Bool-cases, ℕ, ◌==◌, ◌≡◌, ◌⊎◌, arith, sym, ◌≢◌,
  append-nil, ◌∙◌, ap,
}

module _ (l : Limits) (m : Machine) where
  -- Where the format is `elf`, the scan of the input has found whether it has versioned symbols.
  abbrev InputScanned : Bool → Type 0
  InputScanned versioned =
      str_eq (value m.sys (codes "LLVM_INTERFACE_LIBRARY_FORMAT")) (codes "elf") ≡ true
      → ScanSays l m (value m.sys (codes "LLVM_INTERFACE_LIBRARY_INPUT")) versioned

  interface_wanted-Started :
      (w : World)
      → (versioned : Bool) × Started
          (format_commands m.sys versioned
            (value m.sys (codes "LLVM_INTERFACE_LIBRARY_FORMAT"))
            (value m.sys (codes "LLVM_INTERFACE_LIBRARY_INPUT"))
            (value m.sys (codes "LLVM_INTERFACE_LIBRARY_OUTPUT")))
          w
          (interface_wanted l m w)
        × WhenZero (InputScanned versioned) (interface_wanted l m w)
  unfolding interface_wanted
  interface_wanted-Started w =
      let format = value m.sys (codes "LLVM_INTERFACE_LIBRARY_FORMAT") in
      let input = value m.sys (codes "LLVM_INTERFACE_LIBRARY_INPUT") in
      let output = value m.sys (codes "LLVM_INTERFACE_LIBRARY_OUTPUT") in
      let make = generate_interface_library l m in
      let (versioned, h, says) = generate-Started l m format input output w in
      let plan = format_commands m.sys versioned format input output in
      (
        versioned,
        required_env-Started plan m.sys (codes "LLVM_INTERFACE_LIBRARY_FORMAT")
            (λ f. required_env m.sys (codes "LLVM_INTERFACE_LIBRARY_INPUT") >>= λ i.
              required_env m.sys (codes "LLVM_INTERFACE_LIBRARY_OUTPUT") >>= λ o. make f i o)
            w
            (required_env-Started plan m.sys (codes "LLVM_INTERFACE_LIBRARY_INPUT")
              (λ i.
                required_env m.sys (codes "LLVM_INTERFACE_LIBRARY_OUTPUT") >>= λ o. make format i o)
              w
              (required_env-Started plan m.sys (codes "LLVM_INTERFACE_LIBRARY_OUTPUT")
                (λ o. make format input o) w h)),
        required_env-WhenZero (InputScanned versioned) m.sys (codes "LLVM_INTERFACE_LIBRARY_FORMAT")
            (λ f. required_env m.sys (codes "LLVM_INTERFACE_LIBRARY_INPUT") >>= λ i.
              required_env m.sys (codes "LLVM_INTERFACE_LIBRARY_OUTPUT") >>= λ o. make f i o)
            w
            (required_env-WhenZero (InputScanned versioned) m.sys
              (codes "LLVM_INTERFACE_LIBRARY_INPUT")
              (λ i.
                required_env m.sys (codes "LLVM_INTERFACE_LIBRARY_OUTPUT") >>= λ o. make format i o)
              w
              (required_env-WhenZero (InputScanned versioned) m.sys
                (codes "LLVM_INTERFACE_LIBRARY_OUTPUT") (λ o. make format input o) w says)),
      )

  make_interface-Started :
      (w : World)
      → (versioned : Bool) × Started (interface_commands m.sys versioned) w (make_interface l m w)
        × WhenZero (wants_interface m.sys ≡ true → InputScanned versioned) (make_interface l m w)
  unfolding make_interface
  make_interface-Started w = elim (Bool-cases (wants_interface m.sys)) [
    | inl y ↦
        let (versioned, h, says) = interface_wanted-Started w in
        rw y (versioned, h, WhenZero-map _ _ (interface_wanted l m w) says)
    | inr n ↦ rw n (true, pure_zero-Started w, (λ z e. absurd (ground arith)))
  ]

-- The commands that a run starts: the compiler with the arguments of the wrapper, then those for
-- the debug symbols, then those for the interface library.
abbrev pub commands : System → List Bytes → Bool → List (List Bytes)
commands sys args versioned =
    (value sys (codes "LLVM_CLANGXX") ∷ args)
    ∷ (dsym_commands sys ++ interface_commands sys versioned)

main-Started :
    (l : Limits) (m : Machine) (args : List Bytes) (w : World)
    → (versioned : Bool) × Started (commands m.sys args versioned) w (main l m args w)
      × WhenZero (wants_interface m.sys ≡ true → InputScanned l m versioned) (main l m args w)
unfolding main
main-Started l m args w =
    let clangxx = value m.sys (codes "LLVM_CLANGXX") in
    let link = λ (c : Bytes). run_process l.fuel m.sys (c ∷ args) in
    let later = unless_failed (make_dsym l m) (make_interface l m) in
    let backed = λ (b : Bool). wants_interface m.sys ≡ true → InputScanned l m b in
    let (versioned, h, says) =
      unless_failed_some ((clangxx ∷ args) ∷ [])
        (λ versioned. dsym_commands m.sys ++ interface_commands m.sys versioned) backed
        (link clangxx) later w (run_process-Started l.fuel m.sys (clangxx ∷ args) w)
        (λ w'.
          unless_failed_some (dsym_commands m.sys) (interface_commands m.sys) backed (make_dsym l m)
            (make_interface l m) w' (make_dsym-Started l m w') (make_interface-Started l m)) in
    (
      versioned,
      required_env-Started (commands m.sys args versioned) m.sys (codes "LLVM_CLANGXX")
          (λ c. unless_failed (link c) later) w h,
      required_env-WhenZero (backed versioned) m.sys (codes "LLVM_CLANGXX")
          (λ c. unless_failed (link c) later) w says,
    )

-- How a run that began in `w` has gone through a plan: it has started all commands of it and
-- returned 0, or the first ones of it and ended with another status, or it still waits for one.
abbrev pub Through : List (List Bytes) → World → Result ℕ → Type 0
Through plan w (returned status w') =
    ((status ≡ 0) × (w'.ran ≡ w.ran ++ plan))
    ⊎ ((status ≢ 0) × ((rest : List (List Bytes)) × (w'.ran ++ rest ≡ w.ran ++ plan)))
Through plan w (exit status w') =
    (status ≢ 0) × ((rest : List (List Bytes)) × (w'.ran ++ rest ≡ w.ran ++ plan))
Through plan w (waiting w') = (rest : List (List Bytes)) × (w'.ran ++ rest ≡ w.ran ++ plan)

Started-Through :
    (plan : List (List Bytes)) (w : World) (r : Result ℕ) → Started plan w r → Through plan w r
Started-Through plan w (returned status w') (rest, g, z) = elim (Bool-cases (status == 0)) [
  | inl y ↦
      let none_left : rest ≡ [] = z (ground arith) in
      inl (ground arith, sym (append-nil w'.ran) ∙ ap (λ l. w'.ran ++ l) (sym none_left) ∙ g)
  | inr n ↦ inr ((λ h. absurd (ground arith)), (rest, g))
]
Started-Through plan w (exit status w') (rest, g, z) = (z, (rest, g))
Started-Through plan w (waiting w') h = h

-- Whether the library that an interface library is made of has versioned symbols, where a run that has
-- ended with 0 was asked for one of the format `elf`: it is what the scan of it has found.
abbrev pub Scanned : Limits → Machine → Bool → Result ℕ → Type 0
Scanned l m versioned (returned status w') =
    (status ≢ 0)
    ⊎ ((wants_interface m.sys ≡ false)
        ⊎ ((str_eq (value m.sys (codes "LLVM_INTERFACE_LIBRARY_FORMAT")) (codes "elf") ≡ false)
            ⊎ ScanSays l m (value m.sys (codes "LLVM_INTERFACE_LIBRARY_INPUT")) versioned))
Scanned l m versioned (exit status w') = status ≢ 0
Scanned l m versioned (waiting w') = Unit {0}

Scanned-intro :
    (l : Limits) (m : Machine) (versioned : Bool) (plan : List (List Bytes)) (w : World)
    (r : Result ℕ)
    → Started plan w r
    → WhenZero (wants_interface m.sys ≡ true → InputScanned l m versioned) r
    → Scanned l m versioned r
Scanned-intro l m versioned plan w (returned status w') h says = elim (Bool-cases (status == 0)) [
  | inr bad ↦ inl (λ z. absurd (ground arith))
  | inl y ↦ elim (Bool-cases (wants_interface m.sys)) [
    | inr unwanted ↦ inr (inl unwanted)
    | inl wanted ↦
        elim (Bool-cases
          (str_eq (value m.sys (codes "LLVM_INTERFACE_LIBRARY_FORMAT")) (codes "elf"))) [
            | inr other ↦ inr (inr (inl other))
            | inl elf ↦ inr (inr (inr (says (ground arith) wanted elf)))
          ]
  ]
]
Scanned-intro l m versioned plan w (exit status w') (rest, g, z) says = z
Scanned-intro l m versioned plan w (waiting w') h says = tt

-- The commands that a run of the wrapper has started are the first ones of this list, in its order:
-- the compiler with the wrapper's arguments; where a path for them is set, dsymutil and the stripping
-- that is asked for; where it is asked for, llvm-nm and for a library without versioned symbols
-- llvm-ifs, or llvm-readtapi; each with the paths of the environment. A run that returns 0 has started
-- all of them and no other; where it was asked for the format `elf`, the library counts as one with
-- versioned symbols exactly as the scan of it has found.
pub main-Through :
    (l : Limits) (m : Machine) (args : List Bytes) (w : World)
    → (versioned : Bool) × Through (commands m.sys args versioned) w (main l m args w)
      × Scanned l m versioned (main l m args w)
main-Through l m args w =
    let (versioned, h, says) = main-Started l m args w in
    let plan = commands m.sys args versioned in
    (
      versioned,
      Started-Through plan w (main l m args w) h,
      Scanned-intro l m versioned plan w (main l m args w) h says,
    )

-- ===== src/LinkWrapper/Interface/Dsym.antt =====
-- The commands for the debug symbols in `main` of tools/internal/link_wrapper.c.
use hermetic_llvm.LinkWrapper.Interface.Started.{
  commands_for, Started, value, option-Started, required_env-Started, run_process-Started,
  unless_failed-Started,
}
use hermetic_llvm.Bytes.{Bytes, codes}
use hermetic_llvm.LinkWrapper.Interface.{
  Limits, Machine, strip_output, make_dsym, strip_wanted, dsym_at, strip_args, dsym_args,
  unless_failed,
}
use hermetic_llvm.LinkWrapper.{System, set_env, World, run_process, required_env, ◌>>=◌}
use hermetic_llvm.Prelude.{List, [], ◌∷◌}

-- The commands for the debug symbols.
abbrev pub strip_commands : System → List (List Bytes)
strip_commands sys =
    commands_for (set_env sys (codes "LLVM_STRIP_DEBUG_SYMBOLS"))
      λ _. strip_args (value sys (codes "LLVM_STRIP")) (value sys (codes "LLVM_LINK_OUTPUT")) ∷ []

abbrev pub dsym_commands : System → List (List Bytes)
dsym_commands sys = commands_for (set_env sys (codes "LLVM_DSYM_PATH")) λ dsym_path.
    dsym_args (value sys (codes "LLVM_DSYMUTIL")) dsym_path (value sys (codes "LLVM_LINK_OUTPUT"))
    ∷ strip_commands sys

module _ (l : Limits) (m : Machine) where
  strip_output-Started :
      (link_output : Bytes) (w : World)
      → Started
          (strip_args (value m.sys (codes "LLVM_STRIP")) link_output ∷ [])
          w
          (strip_output l m link_output w)
  unfolding strip_output
  strip_output-Started link_output w =
      let strip = value m.sys (codes "LLVM_STRIP") in
      required_env-Started (strip_args strip link_output ∷ []) m.sys (codes "LLVM_STRIP")
        (λ s. run_process l.fuel m.sys (strip_args s link_output)) w
        (run_process-Started l.fuel m.sys (strip_args strip link_output) w)

  strip_wanted-Started :
      (w : World)
      → Started
          (strip_commands m.sys)
          w
          (strip_wanted l m (value m.sys (codes "LLVM_LINK_OUTPUT")) w)
  unfolding strip_wanted
  strip_wanted-Started w =
      let link_output = value m.sys (codes "LLVM_LINK_OUTPUT") in
      option-Started (set_env m.sys (codes "LLVM_STRIP_DEBUG_SYMBOLS"))
        (λ _. strip_args (value m.sys (codes "LLVM_STRIP")) link_output ∷ [])
        (λ _. strip_output l m link_output) w (λ _. strip_output-Started link_output w)

  dsym_at-Started :
      (dsym_path : Bytes) (w : World)
      → Started
          (dsym_args
              (value m.sys (codes "LLVM_DSYMUTIL"))
              dsym_path
              (value m.sys (codes "LLVM_LINK_OUTPUT"))
            ∷ strip_commands m.sys)
          w
          (dsym_at l m dsym_path w)
  unfolding dsym_at
  dsym_at-Started dsym_path w =
      let link_output = value m.sys (codes "LLVM_LINK_OUTPUT") in
      let dsymutil = value m.sys (codes "LLVM_DSYMUTIL") in
      let command = dsym_args dsymutil dsym_path link_output in
      let start = λ (out tool : Bytes).
        unless_failed (run_process l.fuel m.sys (dsym_args tool dsym_path out))
          (strip_wanted l m out) in
      let plan = command ∷ strip_commands m.sys in
      required_env-Started plan m.sys (codes "LLVM_LINK_OUTPUT")
        (λ out. required_env m.sys (codes "LLVM_DSYMUTIL") >>= start out) w
        (required_env-Started plan m.sys (codes "LLVM_DSYMUTIL") (start link_output) w (
          unless_failed-Started (command ∷ []) (strip_commands m.sys)
            (run_process l.fuel m.sys command) (strip_wanted l m link_output) w
            (run_process-Started l.fuel m.sys command w) strip_wanted-Started))

  pub make_dsym-Started : (w : World) → Started (dsym_commands m.sys) w (make_dsym l m w)
  unfolding make_dsym
  make_dsym-Started w =
      option-Started (set_env m.sys (codes "LLVM_DSYM_PATH")) _ (dsym_at l m) w
        (λ p. dsym_at-Started p w)

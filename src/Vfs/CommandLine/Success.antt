-- ===== src/Vfs/CommandLine/Success.antt =====
-- When `main` of tools/case_insensitive_vfs/main.c returns 0.
use hermetic_llvm.Vfs.CommandLine.Laws.{
  Flag, spell, parse_arguments_lem, last_output, arguments, roots_of, parse-spell,
}
use hermetic_llvm.Bytes.{Bytes}
use hermetic_llvm.Vfs.Overlay.{
  RootSort, FileSystem, Rendered, rendered, case_insensitive_vfs_generate, failed, exhausted,
}
use hermetic_llvm.Vfs.Entries.{Qsort}
use hermetic_llvm.Vfs.CommandLine.{
  OutputFile, write_overlay, Files, put, finish_overlay, main, parse_arguments, Verdict,
  no_arguments,
}
use mathlib.Core.Option.{some-injective}
use hermetic_llvm.Prelude.{
  ℕ, ◌≡◌, refl, sym, ap, subst, ◌∙◌, inl, inr, true, none, some, List, arith, Bool-cases,
  Option-cases, ◌↔◌,
}

-- The output file was written as a whole.
abbrev pub Written : OutputFile → Files → Bytes → Bytes → Files → Type 0
Written out files path overlay left =
    (out.opens path ≡ true)
    × (out.stops ≡ none)
    × (out.closes ≡ none)
    × (left ≡ put files path overlay)

write_overlay-Written :
    (out : OutputFile) (files left : Files) (path overlay : Bytes)
    → write_overlay out files path overlay ≡ (0, left)
    → Written out files path overlay left
unfolding write_overlay
write_overlay-Written out files left path overlay h = elim (Bool-cases (out.opens path)) [
  | inr shut ↦ absurd (ground arith)
  | inl opened ↦ elim (Option-cases out.stops) [
    | inr (n, stopped) ↦ absurd (ground arith)
    | inl flows ↦ elim (Option-cases out.closes) [
      | inr (n, stopped) ↦ absurd (ground arith)
      | inl closed ↦
          let good : write_overlay out files path overlay ≡ (0, put files path overlay) =
            rw (write_overlay, opened, flows, closed) refl in
          (opened, flows, closed, ap (λ (v : Verdict). v.1) (sym h ∙ good))
    ]
  ]
]

Written-write_overlay :
    (out : OutputFile) (files left : Files) (path overlay : Bytes)
    → Written out files path overlay left
    → write_overlay out files path overlay ≡ (0, left)
unfolding write_overlay
Written-write_overlay out files left path overlay (opened, flows, closed, e) =
    let good : write_overlay out files path overlay ≡ (0, put files path overlay) =
      rw (write_overlay, opened, flows, closed) refl in
    subst (λ (f : Files). write_overlay out files path overlay ≡ (0, f)) (sym e) good

module _ (fuel : ℕ) (q : Qsort) (s : RootSort) (fs : FileSystem) (out : OutputFile)
    (files : Files) where
  -- The arguments spell flags with an output path, the overlay of their roots is rendered, and the
  -- output file was written.
  abbrev pub Succeeds : List Bytes → Files → Type 0
  Succeeds argv left =
      (flags : List Flag) × (path : Bytes) × (overlay : Bytes) × (spell flags ≡ argv)
      × (last_output none flags ≡ some path)
      × (case_insensitive_vfs_generate fuel q s fs (roots_of flags) ≡ rendered overlay)
      × Written out files path overlay left

  finish_zero :
      (path : Bytes) (r : Rendered) (left : Files)
      → finish_overlay out files path r ≡ some (0, left)
      → (overlay : Bytes) × (r ≡ rendered overlay) × Written out files path overlay left
  unfolding finish_overlay
  finish_zero path (rendered overlay) left h =
      (overlay, refl, write_overlay-Written out files left path overlay (some-injective _ _ h))
  finish_zero path (failed f) left h = absurd (ground arith)
  finish_zero path exhausted left h = absurd (ground arith)

  main-Succeeds :
      (argv : List Bytes) (left : Files)
      → main fuel q s fs out files argv ≡ some (0, left)
      → Succeeds argv left
  unfolding main
  main-Succeeds argv left h = elim (parse_arguments_lem argv) [
    | inr (bad, refused) ↦ absurd (ground arith)
    | inl (flags, e, parsed) ↦ elim (Option-cases (last_output none flags)) [
      | inl missing ↦ absurd (ground arith)
      | inr (path, placed) ↦
          let made = case_insensitive_vfs_generate fuel q s fs (roots_of flags) in
          let ended : main fuel q s fs out files argv ≡ finish_overlay out files path made =
            rw (main, parsed, placed) refl in
          let (overlay, r, written) = finish_zero path made left (sym ended ∙ h) in
          (flags, path, overlay, e, placed, r, written)
    ]
  ]

  Succeeds-main :
      (argv : List Bytes) (left : Files)
      → Succeeds argv left
      → main fuel q s fs out files argv ≡ some (0, left)
  unfolding main finish_overlay
  Succeeds-main argv left (flags, path, overlay, e, placed, made, written) =
      let parsed : parse_arguments argv no_arguments
          ≡ some (arguments (roots_of flags) (last_output none flags)) =
        ap (λ l. parse_arguments l no_arguments) (sym e) ∙ parse-spell flags no_arguments in
      rw (main, parsed, placed, made, finish_overlay)
        (ap some (Written-write_overlay out files left path overlay written))

-- `main` returns 0 and leaves some files exactly where the arguments spell flags with an output path,
-- the overlay of the flags' roots is rendered, the file at that path opens, takes the whole overlay
-- and closes, and the files left are the old ones with the overlay at that path.
pub main_zero :
    (fuel : ℕ) (q : Qsort) (s : RootSort) (fs : FileSystem) (out : OutputFile) (files left : Files)
    (argv : List Bytes)
    → (main fuel q s fs out files argv ≡ some (0, left)) ↔ Succeeds fuel q s fs out files argv left
main_zero fuel q s fs out files left argv =
    (main-Succeeds fuel q s fs out files argv left, Succeeds-main fuel q s fs out files argv left)

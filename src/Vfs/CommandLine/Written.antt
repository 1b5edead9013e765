-- ===== src/Vfs/CommandLine/Written.antt =====
-- The file that `main` of tools/case_insensitive_vfs/main.c writes, as a JSON reader reads it.
use hermetic_llvm.Vfs.JsonText.Parser.{Items, json_parse}
use mathlib.Core.List.{Perm}
use hermetic_llvm.Vfs.JsonText.Generated.{generate-json_parse, AreTrees, overlay_value}
use hermetic_llvm.Vfs.CommandLine.Success.{main_zero}
use hermetic_llvm.Vfs.CommandLine.Laws.{Flag, spell, last_output, roots_of}
use hermetic_llvm.Bytes.{Bytes, str_eq_iff, str_eq}
use hermetic_llvm.Vfs.Overlay.{FileSystem, RootSort, RootEntry, make_roots, RootsAscend}
use hermetic_llvm.Vfs.CommandLine.{Files, put, OutputFile, main}
use hermetic_llvm.Vfs.Entries.{Qsort}
use hermetic_llvm.Prelude.{
  ℕ, ◌≡◌, refl, ap, ◌∙◌, ◌≢◌, inl, inr, Option, none, some, List, Bool-cases,
}

-- A file holds the overlay of some roots: a JSON reader reads it, and the roots in it are the trees
-- of their directories, in the order of their generic paths.
abbrev pub HoldsOverlay : FileSystem → List Bytes → Option Bytes → Type 0
HoldsOverlay fs roots content =
    (source : Bytes) × (content ≡ some source)
    × (sorted : List RootEntry) × Perm sorted (make_roots roots)
    × RootsAscend sorted
    × (items : Items) × AreTrees fs sorted items
    × (json_parse source ≡ some (overlay_value items))

put_here : (files : Files) (path source : Bytes) → put files path source path ≡ some source
put_here files path source = rw ((str_eq_iff path path).1 refl) refl

put_elsewhere :
    (files : Files) (path source other : Bytes)
    → other ≢ path
    → put files path source other ≡ files other
put_elsewhere files path source other apart = elim (Bool-cases (str_eq other path)) [
  | inl same ↦ absurd (apart ((str_eq_iff other path).0 same))
  | inr different ↦ rw different refl
]

-- Where `main` returns 0, its arguments spell flags with an output path, the file at that path holds
-- the overlay of the flags' roots, and every other file is what it was.
pub main-HoldsOverlay :
    (fuel : ℕ) (q : Qsort) (s : RootSort) (fs : FileSystem) (out : OutputFile) (files left : Files)
    (argv : List Bytes)
    → main fuel q s fs out files argv ≡ some (0, left)
    → (flags : List Flag) × (path : Bytes) × (spell flags ≡ argv)
      × (last_output none flags ≡ some path)
      × HoldsOverlay fs (roots_of flags) (left path)
      × ((other : Bytes) → other ≢ path → left other ≡ files other)
main-HoldsOverlay fuel q s fs out files left argv h =
    let (flags, path, source, e, placed, made, (opened, flows, closed, written)) =
      (main_zero fuel q s fs out files left argv).0 h in
    let at_path : left path ≡ some source =
      ap (λ (f : Files). f path) written ∙ put_here files path source in
    let (sorted, perm, ascend, items, trees, read) =
      generate-json_parse fuel q s fs (roots_of flags) source made in
    (
      flags,
      path,
      e,
      placed,
      (source, at_path, sorted, perm, ascend, items, trees, read),
      λ other apart.
          ap (λ (f : Files). f other) written ∙ put_elsewhere files path source other apart,
    )

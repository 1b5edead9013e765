-- ===== src/Vfs/Overlay/Roots.antt =====
-- The overlay of several roots.
use hermetic_llvm.Vfs.Overlay.Forest.{IsOverlay, Rendered-cases, render_directory-IsOverlay}
use mathlib.Core.List.{Perm}
use hermetic_llvm.Bytes.{Bytes, codes}
use hermetic_llvm.Vfs.Entries.{Qsort}
use hermetic_llvm.Vfs.Overlay.{
  case_insensitive_vfs_generate, FileSystem, render_roots, RootEntry, rendered, entry_text,
  make_roots, no_more, render_directory, RootSort, RootsAscend,
}
use hermetic_llvm.Prelude.{ℕ, ◌≡◌, subst, ◌≢◌, inl, inr, List, [], ◌∷◌, ◌++◌, arith}

-- A text that lists the overlays of the roots, in their order.
pub data AreOverlays (fs : FileSystem) : List RootEntry → Bytes → Type 0 where
  no_overlay : AreOverlays fs [] []
  one_more :
      (r : RootEntry) (roots : List RootEntry) (text more : Bytes)
      → IsOverlay fs r.root r.generic 4 text
      → AreOverlays fs roots more
      → AreOverlays fs (r ∷ roots) (entry_text 0 text (no_more roots) more)

render_roots-AreOverlays :
    (fuel : ℕ) (q : Qsort) (fs : FileSystem) (roots : List RootEntry) (text : Bytes)
    → render_roots fuel q fs roots ≡ rendered text
    → AreOverlays fs roots text
unfolding render_roots
render_roots-AreOverlays fuel q fs [] text h = subst (AreOverlays fs []) (ground arith) no_overlay
render_roots-AreOverlays fuel q fs (r ∷ roots) text h =
    elim (Rendered-cases (render_directory fuel q fs r.root r.generic 4)) [
      | inr (inl (f, bad)) ↦ absurd (ground arith)
      | inr (inr bad) ↦ absurd (ground arith)
      | inl (t, here) ↦ elim (Rendered-cases (render_roots fuel q fs roots)) [
        | inr (inl (f, bad)) ↦ absurd (ground arith)
        | inr (inr bad) ↦ absurd (ground arith)
        | inl (more, there) ↦ subst (AreOverlays fs (r ∷ roots)) (ground arith) (
            one_more r roots t more (render_directory-IsOverlay fuel q fs r.root r.generic 4 t here)
              (render_roots-AreOverlays fuel q fs roots more there))
      ]
    ]

-- Where `case_insensitive_vfs_generate` gives a text, there are roots; with any `qsort`, they are
-- rearranged so that their generic paths ascend; and the text is the header, the overlay of every
-- root in this order, each with a forest that describes its directory, and the closing lines.
pub generate-AreOverlays :
    (fuel : ℕ) (q : Qsort) (s : RootSort) (fs : FileSystem) (roots : List Bytes) (text : Bytes)
    → case_insensitive_vfs_generate fuel q s fs roots ≡ rendered text
    → (roots ≢ [])
      × (sorted : List RootEntry) × Perm sorted (make_roots roots)
      × RootsAscend sorted
      × (body : Bytes) × AreOverlays fs sorted body
      × (text
          ≡ codes "{\n  \"version\": 0,\n  \"case-sensitive\": false,\n  \"roots\": [\n"
            ++ (body ++ codes "  ]\n}\n"))
unfolding case_insensitive_vfs_generate
generate-AreOverlays fuel q s fs [] text h = absurd (ground arith)
generate-AreOverlays fuel q s fs (root ∷ roots) text h =
    let sorted = s.arrange (make_roots (root ∷ roots)) in
    elim (Rendered-cases (render_roots fuel q fs sorted)) [
      | inr (inl (f, bad)) ↦ absurd (ground arith)
      | inr (inr bad) ↦ absurd (ground arith)
      | inl (body, there) ↦ (
        (λ e. ground arith),
        sorted,
        s.arrange-perm (make_roots (root ∷ roots)),
        s.arrange-RootsAscend (make_roots (root ∷ roots)),
        body,
        render_roots-AreOverlays fuel q fs sorted body there,
        ground arith,
      )
    ]

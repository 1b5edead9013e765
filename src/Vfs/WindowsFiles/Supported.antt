-- ===== src/Vfs/WindowsFiles/Supported.antt =====
-- The types of entries on Windows, in an overlay of tools/case_insensitive_vfs/vfs.c.
use hermetic_llvm.Vfs.Overlay.{
  directory_path, regular_path, other_path, Rendered, failed, render_entry, render_entries,
  render_directory, unsupported,
}
use hermetic_llvm.Vfs.Overlay.Forest.{Rendered-cases, Collected-cases}
use hermetic_llvm.Vfs.Paths.{ci_join_path}
use hermetic_llvm.Bytes.{Bytes}
use hermetic_llvm.Vfs.Entries.{Qsort, Entry, ci_collect_preferred_entries}
use hermetic_llvm.Vfs.WindowsFiles.{
  WindowsFiles, windows_file_system, windows_path_info, windows_path_info-other,
}
use hermetic_llvm.Prelude.{
  ℕ, zero, suc, ◌+◌, ◌≢◌, inl, inr, true, false, List, [], ◌∷◌, arith, Option-cases,
}

-- A rendering does not fail by an unsupported entry.
abbrev Supported : Rendered → Type 0
Supported r = (path : Bytes) → r ≢ failed (unsupported path)

module _ (files : WindowsFiles) (q : Qsort) where
  module _ (sub : Bytes → Bytes → ℕ → Rendered)
      (below : (path name : Bytes) (indentation : ℕ) → Supported (sub path name indentation))
      (path : Bytes) (indentation : ℕ) where
    render_entry-Supported :
        (e : Entry) → Supported (render_entry sub (windows_file_system files) path indentation e)
    unfolding render_entry
    render_entry-Supported e refused h =
        let full_path = ci_join_path path e.name in
        elim (Option-cases (windows_path_info files full_path)) [
          | inl bad ↦ ground arith
          | inr ((directory_path, true), i) ↦ ground arith
          | inr ((directory_path, false), i) ↦
              below full_path e.name (indentation + 4) refused (ground arith)
          | inr ((regular_path, l), i) ↦ ground arith
          | inr ((other_path, l), i) ↦ windows_path_info-other files full_path l i
        ]

    render_entries-Supported :
        (kept : List Entry)
        → Supported (render_entries sub (windows_file_system files) path indentation kept)
    unfolding render_entries
    render_entries-Supported [] refused h = ground arith
    render_entries-Supported (e ∷ kept) refused h =
        let fs = windows_file_system files in
        elim (Rendered-cases (render_entry sub fs path indentation e)) [
          | inr (inr bad) ↦ ground arith
          | inr (inl (f, here)) ↦ render_entry-Supported e refused (ground arith)
          | inl (t, here) ↦ elim (Rendered-cases (render_entries sub fs path indentation kept)) [
            | inr (inr bad) ↦ ground arith
            | inr (inl (f, there)) ↦ render_entries-Supported kept refused (ground arith)
            | inl (more, there) ↦ ground arith
          ]
        ]

  -- No entry of a directory, or below it, is of an unsupported type.
  render_directory-Supported :
      (fuel : ℕ) (path name : Bytes) (indentation : ℕ)
      → Supported (render_directory fuel q (windows_file_system files) path name indentation)
  unfolding render_directory
  render_directory-Supported zero path name indentation refused h = ground arith
  render_directory-Supported (suc fuel) path name indentation refused h =
      let fs = windows_file_system files in
      let sub = render_directory fuel q fs in
      elim (Collected-cases (ci_collect_preferred_entries q (fs.listing path))) [
        | inr (inl bad) ↦ ground arith
        | inr (inr (a, b, bad)) ↦ ground arith
        | inl (kept, c) ↦ elim (Rendered-cases (render_entries sub fs path indentation kept)) [
          | inr (inr bad) ↦ ground arith
          | inr (inl (f, there)) ↦
              render_entries-Supported sub (render_directory-Supported fuel) path indentation kept
                refused (ground arith)
          | inl (contents, there) ↦ ground arith
        ]
      ]

-- ===== src/Vfs/Overlay/Depth.antt =====
-- The fuel of `render_directory` is enough where it is more than the depth of the tree.
use hermetic_llvm.Vfs.Paths.{ci_join_path}
use hermetic_llvm.Vfs.Overlay.Forest.{Collected-cases, Rendered-cases, collected}
use hermetic_llvm.Vfs.Entries.Collect.{bears}
use hermetic_llvm.Vfs.Entries.{Qsort, Entry, list_entries, ci_collect_preferred_entries}
use hermetic_llvm.Bytes.{Bytes}
use hermetic_llvm.Vfs.Overlay.{
  FileSystem, render_directory, exhausted, Rendered, render_entry, render_entries, directory_path,
  regular_path, other_path,
}
use hermetic_llvm.Prelude.{
  ℕ, zero, suc, ◌+◌, ◌≡◌, ◌≢◌, inl, inr, true, false, some, List, [], ◌∷◌, arith, Option-cases, All,
  any_of,
}

-- Below the directory at a path there are fewer than `depth` directories in one another.
abbrev pub IsShallow : FileSystem → ℕ → Bytes → Type 0
IsShallow fs zero path = ⊥
IsShallow fs (suc depth) path =
    (names : List Bytes) (name : Bytes)
    → fs.listing path ≡ some (names, false)
    → any_of (bears name) (list_entries names) ≡ true
    → fs.path_info (ci_join_path path name) ≡ some (directory_path, false)
    → IsShallow fs depth (ci_join_path path name)

module _ (fs : FileSystem) (sub : Bytes → Bytes → ℕ → Rendered) (path : Bytes)
    (indentation : ℕ) where
  render_entry-ends :
      (e : Entry)
      → (fs.path_info (ci_join_path path e.name) ≡ some (directory_path, false)
          → sub (ci_join_path path e.name) e.name (indentation + 4) ≢ exhausted)
      → render_entry sub fs path indentation e ≢ exhausted
  unfolding render_entry
  render_entry-ends e h r = elim (Option-cases (fs.path_info (ci_join_path path e.name))) [
    | inl bad ↦ ground arith
    | inr ((directory_path, true), i) ↦ ground arith
    | inr ((directory_path, false), i) ↦ h i (ground arith)
    | inr ((regular_path, l), i) ↦ ground arith
    | inr ((other_path, l), i) ↦ ground arith
  ]

  render_entries-ends :
      (kept : List Entry)
      → All
          (λ e.
            fs.path_info (ci_join_path path e.name) ≡ some (directory_path, false)
            → sub (ci_join_path path e.name) e.name (indentation + 4) ≢ exhausted)
          kept
      → render_entries sub fs path indentation kept ≢ exhausted
  unfolding render_entries
  render_entries-ends [] h r = ground arith
  render_entries-ends (e ∷ kept) h r =
      elim (Rendered-cases (render_entry sub fs path indentation e)) [
        | inr (inr bad) ↦ render_entry-ends e h.0 bad
        | inr (inl (f, here)) ↦ ground arith
        | inl (t, here) ↦ elim (Rendered-cases (render_entries sub fs path indentation kept)) [
          | inr (inr bad) ↦ render_entries-ends kept h.1 bad
          | inr (inl (f, there)) ↦ ground arith
          | inl (more, there) ↦ ground arith
        ]
      ]

All-kept :
    (P Q : Entry → Type 0) (es : List Entry) → ((e : Entry) → P e → Q e) → All P es → All Q es
All-kept P Q [] f h = tt
All-kept P Q (e ∷ es) f h = (f e h.0, All-kept P Q es f h.1)

-- Where fewer directories than the fuel stand in one another below the path, `render_directory`
-- comes to a text or to a failure.
pub render_directory_ends :
    (fuel : ℕ) (q : Qsort) (fs : FileSystem) (path virtual_name : Bytes) (indentation : ℕ)
    → IsShallow fs fuel path
    → render_directory fuel q fs path virtual_name indentation ≢ exhausted
unfolding render_directory
render_directory_ends zero q fs path virtual_name indentation h r = absurd h
render_directory_ends (suc fuel) q fs path virtual_name indentation h r =
    let sub = render_directory fuel q fs in
    elim (Collected-cases (ci_collect_preferred_entries q (fs.listing path))) [
      | inr (inl bad) ↦ ground arith
      | inr (inr (a, b, bad)) ↦ ground arith
      | inl (kept, c) ↦ elim (Rendered-cases (render_entries sub fs path indentation kept)) [
        | inr (inl (f, bad)) ↦ ground arith
        | inl (contents, there) ↦ ground arith
        | inr (inr out) ↦
            let (names, listed, chosen) = collected q (fs.listing path) kept c in
            render_entries-ends fs sub path indentation kept
              (All-kept (λ e. any_of (bears e.name) (list_entries names) ≡ true) _ kept
                (λ e m i.
                  render_directory_ends fuel q fs (ci_join_path path e.name) e.name
                    (indentation + 4) (h names e.name listed m i))
                chosen.sound)
              out
      ]
    ]

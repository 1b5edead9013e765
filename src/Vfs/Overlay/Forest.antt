-- ===== src/Vfs/Overlay/Forest.antt =====
-- The forest that an overlay describes, and its text.
use hermetic_llvm.Vfs.Entries.Collect.{Verdict, IsPreferred, ci_collect_preferred_entries_lem}
use hermetic_llvm.Vfs.Paths.{ci_join_path, ci_generic_path}
use hermetic_llvm.Vfs.Entries.{
  Qsort, Entry, ci_collect_preferred_entries, preferred, list_entries, Collected, ambiguous,
  unreadable,
}
use hermetic_llvm.Vfs.Overlay.{
  failed, FileSystem, Rendered, entry_text, no_entry, render_entry, rendered, render_entries,
  file_text, directory_text, regular_path, directory_path, other_path, render_directory, Failure,
  exhausted,
}
use hermetic_llvm.Bytes.{Bytes}
use hermetic_llvm.Prelude.{
  ℕ, zero, suc, ◌+◌, ◌≡◌, refl, subst, ◌⊎◌, inl, inr, Bool, true, false, Option, none, some, List,
  [], ◌∷◌, arith, Option-cases,
}

-- The entries of a directory: each a file with its place, or a directory with its own entries.
pub data Forest : Type 0 where
  nothing : Forest
  file : Bytes → Bytes → Forest → Forest
  directory : Bytes → Forest → Forest → Forest

abbrev pub no_tree : Forest → Bool
no_tree nothing = true
no_tree _ = false

-- The text of a forest at an indentation.
unfoldable pub forest_text : ℕ → Forest → Bytes
forest_text indentation nothing = []
forest_text indentation (file name external forest) =
    entry_text indentation (file_text name external indentation) (no_tree forest)
      (forest_text indentation forest)
forest_text indentation (directory name children forest) =
    entry_text indentation
      (directory_text name (no_tree children) (forest_text (indentation + 4) children)
        (indentation + 4))
      (no_tree forest) (forest_text indentation forest)

-- A forest describes the entries `kept` of the directory at a path, and all below them. A file
-- stands for its own generic path; a directory is no symbolic link, could be read, and has the
-- preferred ones of its names.
pub data Describes (fs : FileSystem) : Bytes → List Entry → Forest → Type 0 where
  describes_nothing : (path : Bytes) → Describes fs path [] nothing
  describes_file :
      (path : Bytes) (e : Entry) (kept : List Entry) (forest : Forest) (is_symlink : Bool)
      → fs.path_info (ci_join_path path e.name) ≡ some (regular_path, is_symlink)
      → Describes fs path kept forest
      → Describes fs path
          (e ∷ kept)
          (file e.name (ci_generic_path (ci_join_path path e.name)) forest)
  describes_directory :
      (path : Bytes) (e : Entry) (kept : List Entry) (children forest : Forest) (names : List Bytes)
      (below : List Entry)
      → fs.path_info (ci_join_path path e.name) ≡ some (directory_path, false)
      → fs.listing (ci_join_path path e.name) ≡ some (names, false)
      → IsPreferred (list_entries names) below
      → Describes fs (ci_join_path path e.name) below children
      → Describes fs path kept forest
      → Describes fs path (e ∷ kept) (directory e.name children forest)

-- What a text says of the directory at a path.
pub record IsOverlay (fs : FileSystem) (path virtual_name : Bytes) (indentation : ℕ) (text : Bytes)
    : Type 0 where
  pub names : List Bytes
  pub kept : List Entry
  pub forest : Forest
  pub listed : fs.listing path ≡ some (names, false)
  pub chosen : IsPreferred (list_entries names) kept
  pub described : Describes fs path kept forest
  pub spelled :
      text
      ≡ directory_text virtual_name (no_tree forest) (forest_text indentation forest) indentation

pub Rendered-cases :
    (r : Rendered)
    → ((t : Bytes) × (r ≡ rendered t)) ⊎ (((f : Failure) × (r ≡ failed f)) ⊎ (r ≡ exhausted))
Rendered-cases (rendered t) = inl (t, refl)
Rendered-cases (failed f) = inr (inl (f, refl))
Rendered-cases exhausted = inr (inr refl)

pub Collected-cases :
    (c : Collected)
    → ((l : List Entry) × (c ≡ preferred l))
      ⊎ ((c ≡ unreadable) ⊎ ((a : Bytes) × (b : Bytes) × (c ≡ ambiguous a b)))
Collected-cases (preferred l) = inl (l, refl)
Collected-cases unreadable = inr (inl refl)
Collected-cases (ambiguous a b) = inr (inr (a, b, refl))

abbrev Sub : FileSystem → (Bytes → Bytes → ℕ → Rendered) → Type 0
Sub fs sub =
    (path name : Bytes) (indentation : ℕ) (text : Bytes)
    → sub path name indentation ≡ rendered text
    → IsOverlay fs path name indentation text

pub collected :
    (q : Qsort) (found : Option (List Bytes × Bool)) (kept : List Entry)
    → ci_collect_preferred_entries q found ≡ preferred kept
    → (names : List Bytes) × (found ≡ some (names, false)) × IsPreferred (list_entries names) kept
collected q none kept e = absurd (unfold ci_collect_preferred_entries in ground arith)
collected q (some (names, true)) kept e =
    absurd (unfold ci_collect_preferred_entries in ground arith)
collected q (some (names, false)) kept e =
    (names, refl, subst (Verdict (list_entries names)) e (ci_collect_preferred_entries_lem q names))

-- The forest of a list of entries, with its text.
pub record HasForest (fs : FileSystem) (path : Bytes) (indentation : ℕ) (kept : List Entry)
    (text : Bytes) : Type 0 where
  pub trees : Forest
  pub describes : Describes fs path kept trees
  pub same_shape : no_tree trees ≡ no_entry kept
  pub text_is : text ≡ forest_text indentation trees

module _ (fs : FileSystem) (sub : Bytes → Bytes → ℕ → Rendered) (ok : Sub fs sub) (path : Bytes)
    (indentation : ℕ) where
  render_entry-HasForest :
      (e : Entry) (kept : List Entry) (t more : Bytes)
      → render_entry sub fs path indentation e ≡ rendered t
      → HasForest fs path indentation kept more
      → HasForest fs path indentation (e ∷ kept) (entry_text indentation t (no_entry kept) more)
  unfolding render_entry
  render_entry-HasForest e kept t more r f =
      elim (Option-cases (fs.path_info (ci_join_path path e.name))) [
        | inl bad ↦ absurd (ground arith)
        | inr ((directory_path, true), i) ↦ absurd (ground arith)
        | inr ((directory_path, false), i) ↦
            let o = ok (ci_join_path path e.name) e.name (indentation + 4) t (ground arith) in
            record {
              trees = directory e.name o.forest f.trees;
              describes =
                  describes_directory path e kept o.forest f.trees o.names o.kept i o.listed
                    o.chosen o.described f.describes;
              same_shape = refl;
              text_is = unfold forest_text in rw (o.spelled, f.text_is, f.same_shape) refl;
            }
        | inr ((regular_path, l), i) ↦
            let spelled : t
                ≡ file_text e.name (ci_generic_path (ci_join_path path e.name)) indentation =
              ground arith in
            record {
              trees = file e.name (ci_generic_path (ci_join_path path e.name)) f.trees;
              describes = describes_file path e kept f.trees l i f.describes;
              same_shape = refl;
              text_is = unfold forest_text in rw (spelled, f.text_is, f.same_shape) refl;
            }
        | inr ((other_path, l), i) ↦ absurd (ground arith)
      ]

  render_entries-HasForest :
      (kept : List Entry) (text : Bytes)
      → render_entries sub fs path indentation kept ≡ rendered text
      → HasForest fs path indentation kept text
  unfolding render_entries forest_text
  render_entries-HasForest [] text r = record {
    trees = nothing;
    describes = describes_nothing path;
    same_shape = refl;
    text_is = ground arith;
  }
  render_entries-HasForest (e ∷ kept) text r =
      elim (Rendered-cases (render_entry sub fs path indentation e)) [
        | inr (inl bad) ↦ absurd (ground arith)
        | inr (inr bad) ↦ absurd (ground arith)
        | inl (t, here) ↦ elim (Rendered-cases (render_entries sub fs path indentation kept)) [
          | inr (inl bad) ↦ absurd (ground arith)
          | inr (inr bad) ↦ absurd (ground arith)
          | inl (more, there) ↦
              subst (HasForest fs path indentation (e ∷ kept)) (ground arith) (
                render_entry-HasForest e kept t more here
                  (render_entries-HasForest kept more there))
        ]
      ]

-- Where an overlay is rendered for a directory, there is a forest that describes the directory and
-- all below it, and the text is the forest's.
pub render_directory-IsOverlay :
    (fuel : ℕ) (q : Qsort) (fs : FileSystem) (path virtual_name : Bytes) (indentation : ℕ)
    (text : Bytes)
    → render_directory fuel q fs path virtual_name indentation ≡ rendered text
    → IsOverlay fs path virtual_name indentation text
unfolding render_directory
render_directory-IsOverlay zero q fs path virtual_name indentation text r = absurd (ground arith)
render_directory-IsOverlay (suc fuel) q fs path virtual_name indentation text r =
    let sub = render_directory fuel q fs in
    elim (Collected-cases (ci_collect_preferred_entries q (fs.listing path))) [
      | inr (inl bad) ↦ absurd (ground arith)
      | inr (inr (a, b, bad)) ↦ absurd (ground arith)
      | inl (kept, c) ↦ elim (Rendered-cases (render_entries sub fs path indentation kept)) [
        | inr (inl bad) ↦ absurd (ground arith)
        | inr (inr bad) ↦ absurd (ground arith)
        | inl (contents, there) ↦
            let (names, listed, chosen) = collected q (fs.listing path) kept c in
            let f =
              render_entries-HasForest fs sub (render_directory-IsOverlay fuel q fs) path
                indentation kept contents there in
            let spelled : text ≡ directory_text virtual_name (no_entry kept) contents indentation =
              ground arith in
            record {
              names = names;
              kept = kept;
              forest = f.trees;
              listed = listed;
              chosen = chosen;
              described = f.describes;
              spelled = rw (spelled, f.text_is, f.same_shape) refl;
            }
      ]
    ]

-- ===== src/Vfs/Overlay.antt =====
-- tools/case_insensitive_vfs/vfs.c: the overlay that describes directory trees to the compiler. The
-- file system is a parameter; a text buffer is the bytes that were appended to it.
pub mod Forest
pub mod Depth
pub mod Roots
use hermetic_llvm.Vfs.Json.{ci_json_string}
use hermetic_llvm.Vfs.Paths.{ci_generic_path, ci_join_path}
use hermetic_llvm.Bytes.{Bytes, codes, strcmp}
use mathlib.Core.List.{Perm}
use hermetic_llvm.Vfs.Entries.{
  Qsort, unreadable, preferred, ambiguous, Entry, ci_collect_preferred_entries,
}
use Prim.Native.Nat.{Ordering}
use hermetic_llvm.Prelude.{
  ℕ, zero, suc, ◌+◌, ◌≢◌, Bool, true, false, Option, none, some, List, [], ◌∷◌, ◌++◌, if◌then◌else◌,
  All,
}

-- `enum ci_path_type`.
pub data PathType : Type 0 where
  directory_path regular_path other_path : PathType

-- What `opendir` and `readdir` give for a path, and what `ci_path_info` does: the type, and whether
-- the path is a symbolic link.
pub record FileSystem : Type 0 where
  pub listing : Bytes → Option (List Bytes × Bool)
  pub path_info : Bytes → Option (PathType × Bool)

-- The messages.
pub data Failure : Type 0 where
  no_root : Failure
  unread unknown directory_symlink unsupported : Bytes → Failure
  several : Bytes → Bytes → Bytes → Failure
  walk : Bytes → Failure → Failure

-- What rendering comes to; `exhausted` is the end of the fuel.
pub data Rendered : Type 0 where
  rendered : Bytes → Rendered
  failed : Failure → Rendered
  exhausted : Rendered

-- `buffer_indent`.
abbrev pub buffer_indent : ℕ → Bytes
buffer_indent zero = []
buffer_indent (suc spaces) = b' ' ∷ buffer_indent spaces

-- What is appended for a regular file.
unfoldable pub file_text : Bytes → Bytes → ℕ → Bytes
file_text name external indentation =
    codes "{\n"
    ++ (buffer_indent (indentation + 6)
        ++ (codes "\"type\": "
            ++ (ci_json_string (codes "file")
                ++ (codes ",\n"
                    ++ (buffer_indent (indentation + 6)
                        ++ (codes "\"name\": "
                            ++ (ci_json_string name
                                ++ (codes ",\n"
                                    ++ (buffer_indent (indentation + 6)
                                        ++ (codes "\"external-contents\": "
                                            ++ (ci_json_string external
                                                ++ (codes "\n"
                                                    ++ (buffer_indent (indentation + 4)
                                                        ++ codes "}")))))))))))))

-- What is appended for a directory around the text of its entries.
unfoldable pub directory_text : Bytes → Bool → Bytes → ℕ → Bytes
directory_text name empty contents indentation =
    codes "{\n"
    ++ (buffer_indent (indentation + 2)
        ++ (codes "\"type\": "
            ++ (ci_json_string (codes "directory")
                ++ (codes ",\n"
                    ++ (buffer_indent (indentation + 2)
                        ++ (codes "\"name\": "
                            ++ (ci_json_string name
                                ++ ((if empty
                                      then []
                                      else codes ",\n"
                                        ++ (buffer_indent (indentation + 2)
                                            ++ (codes "\"contents\": [\n"
                                                ++ (contents
                                                    ++ (buffer_indent (indentation + 2)
                                                        ++ codes "]")))))
                                    ++ (codes "\n"
                                        ++ (buffer_indent indentation ++ codes "}"))))))))))

-- One entry, with `sub` for the recursive call.
unfoldable pub render_entry :
    (Bytes → Bytes → ℕ → Rendered) → FileSystem → Bytes → ℕ → Entry → Rendered
render_entry sub fs path indentation entry =
    let full_path = ci_join_path path entry.name in
    elim (fs.path_info full_path) [
      | none ↦ failed (unknown full_path)
      | some (directory_path, is_symlink) ↦
          if is_symlink
          then failed (directory_symlink (ci_generic_path full_path))
          else sub full_path entry.name (indentation + 4)
      | some (regular_path, is_symlink) ↦
          rendered (file_text entry.name (ci_generic_path full_path) indentation)
      | some (other_path, is_symlink) ↦ failed (unsupported (ci_generic_path full_path))
    ]

-- The line of an entry, followed by those of the others.
abbrev pub entry_text : ℕ → Bytes → Bool → Bytes → Bytes
entry_text indentation text last more =
    buffer_indent (indentation + 4)
    ++ (text ++ ((if last then [] else codes ",") ++ (codes "\n" ++ more)))

abbrev pub no_entry : List Entry → Bool
no_entry [] = true
no_entry (_ ∷ _) = false

-- The loop over the entries.
unfoldable pub render_entries :
    (Bytes → Bytes → ℕ → Rendered) → FileSystem → Bytes → ℕ → List Entry → Rendered
render_entries sub fs path indentation [] = rendered []
render_entries sub fs path indentation (entry ∷ entries) =
    let others = render_entries sub fs path indentation entries in
    elim (render_entry sub fs path indentation entry) [
      | failed f ↦ failed f
      | exhausted ↦ exhausted
      | rendered text ↦ elim others [
        | failed f ↦ failed f
        | exhausted ↦ exhausted
        | rendered more ↦ rendered (entry_text indentation text (no_entry entries) more)
      ]
    ]

-- The fuel is spent on the depth of the tree.
unfoldable pub render_directory : ℕ → Qsort → FileSystem → Bytes → Bytes → ℕ → Rendered
render_directory zero q fs path virtual_name indentation = exhausted
render_directory (suc fuel) q fs path virtual_name indentation =
    let sub = render_directory fuel q fs in
    elim (ci_collect_preferred_entries q (fs.listing path)) [
      | unreadable ↦ failed (unread path)
      | ambiguous first second ↦ failed (several path first second)
      | preferred entries ↦ elim (render_entries sub fs path indentation entries) [
        | failed f ↦ failed f
        | exhausted ↦ exhausted
        | rendered contents ↦
            rendered (directory_text virtual_name (no_entry entries) contents indentation)
      ]
    ]

-- `struct root_entry`.
pub record RootEntry : Type 0 where
  pub root : Bytes
  pub generic : Bytes

pub make_roots : List Bytes → List RootEntry
make_roots [] = []
make_roots (root ∷ roots) =
    record { root = root; generic = ci_generic_path root } ∷ make_roots roots

unfoldable pub compare_roots : RootEntry → RootEntry → Ordering
compare_roots left right = strcmp left.generic right.generic

abbrev pub RootsAscend : List RootEntry → Type 0
RootsAscend [] = Unit
RootsAscend (r ∷ roots) = All (λ s. compare_roots r s ≢ Ordering.gt) roots × RootsAscend roots

-- `qsort` by `compare_roots`.
pub record RootSort : Type 1 where
  pub arrange : List RootEntry → List RootEntry
  pub arrange-perm : (l : List RootEntry) → Perm (arrange l) l
  pub arrange-RootsAscend : (l : List RootEntry) → RootsAscend (arrange l)

abbrev pub no_more : List RootEntry → Bool
no_more [] = true
no_more (_ ∷ _) = false

-- The loop over the sorted roots.
pub render_roots : ℕ → Qsort → FileSystem → List RootEntry → Rendered
render_roots fuel q fs [] = rendered []
render_roots fuel q fs (r ∷ roots) =
    let others = render_roots fuel q fs roots in
    elim (render_directory fuel q fs r.root r.generic 4) [
      | failed f ↦ failed (walk r.generic f)
      | exhausted ↦ exhausted
      | rendered text ↦ elim others [
        | failed f ↦ failed f
        | exhausted ↦ exhausted
        | rendered more ↦ rendered (entry_text 0 text (no_more roots) more)
      ]
    ]

unfoldable pub case_insensitive_vfs_generate :
    ℕ → Qsort → RootSort → FileSystem → List Bytes → Rendered
unfolding render_roots make_roots
case_insensitive_vfs_generate fuel q roots_sort fs [] = failed no_root
case_insensitive_vfs_generate fuel q roots_sort fs (root ∷ roots) =
    elim (render_roots fuel q fs (roots_sort.arrange (make_roots (root ∷ roots)))) [
      | failed f ↦ failed f
      | exhausted ↦ exhausted
      | rendered text ↦ rendered (
          codes "{\n  \"version\": 0,\n  \"case-sensitive\": false,\n  \"roots\": [\n"
          ++ (text ++ codes "  ]\n}\n"))
    ]

-- ===== src/Tests/Overlay.antt =====
-- An overlay of a root with two spellings of a file and an empty directory.
use hermetic_llvm.Vfs.JsonText.Generated.{AreTrees, overlay_value, generate-json_parse}
use hermetic_llvm.Vfs.JsonText.Parser.{Items, json_parse}
use hermetic_llvm.Vfs.PathInfo.{ci_path_info, file_system, link_mode, directory_mode}
use hermetic_llvm.Vfs.Overlay.Depth.{IsShallow, render_directory_ends}
use hermetic_llvm.Tests.Sort.{
  insertion_sort, insert, insertion_sort-perm, AscendsBy, insertion_sort-AscendsBy,
}
use hermetic_llvm.Vfs.Paths.{ci_join_path, needs_separator, ci_generic_path, ci_fold_case}
use hermetic_llvm.Tests.Directory.{by_insertion}
use hermetic_llvm.Vfs.Json.{ci_json_string, json_byte}
use hermetic_llvm.Vfs.Overlay.Forest.{IsOverlay, render_directory-IsOverlay}
use hermetic_llvm.Bytes.{
  Bytes, codes, str_eq, strcmp, tolower, isupper, strcmp-swap, str_lt_trans, strcmp-eq, str_eq_iff,
}
use hermetic_llvm.Vfs.Entries.{
  ci_collect_preferred_entries, list_entries, preferred_of, validate_sorted_entries,
  compare_entries, validate_group, collapse_sorted_entries, span_folded,
}
use hermetic_llvm.Vfs.Overlay.{
  directory_text, FileSystem, render_directory, file_text, render_entries, entry_text, render_entry,
  regular_path, rendered, directory_path, exhausted, RootSort, RootEntry,
  case_insensitive_vfs_generate, compare_roots, make_roots, RootsAscend, failed, directory_symlink,
}
use Prim.Native.Nat.{Ordering}
use mathlib.Core.List.{Perm}
use hermetic_llvm.Prelude.{
  ◌≡◌, refl, sym, ap, ◌∙◌, ◌≢◌, Bool, true, false, none, some, List, [], ◌∷◌, ◌++◌, arith,
  if◌then◌else◌,
}

abbrev pub disk : FileSystem
disk = record {
  listing = λ path.
      if str_eq path (codes "r")
      then some (codes "A" ∷ codes "a" ∷ codes "s" ∷ [], false)
      else if str_eq path (codes "r/s")
      then some (codes "." ∷ [], false)
      else none;
  path_info = λ path.
      if str_eq path (codes "r/a")
      then some (regular_path, false)
      else if str_eq path (codes "r/s")
      then some (directory_path, false)
      else none;
}

-- What is rendered of it: the spelling in lower case, and the directory.
abbrev empty_text : Bytes
empty_text = directory_text (codes "s") true [] 8

abbrev contents : Bytes
contents =
    entry_text 4 (file_text (codes "a") (codes "r/a") 4) false (entry_text 4 empty_text true [])

abbrev pub overlay : Bytes
overlay = directory_text (codes "r") false contents 4

renders : render_directory 2 by_insertion disk (codes "r") (codes "r") 4 ≡ rendered overlay
unfolding ci_collect_preferred_entries list_entries strcmp preferred_of validate_sorted_entries
    insertion_sort insert compare_entries ci_fold_case tolower isupper validate_group
    collapse_sorted_entries span_folded render_directory render_entries render_entry ci_join_path
    needs_separator ci_generic_path
renders = refl

render_directory-IsOverlay_example : IsOverlay disk (codes "r") (codes "r") 4 overlay
render_directory-IsOverlay_example =
    render_directory-IsOverlay 2 by_insertion disk (codes "r") (codes "r") 4 overlay renders

file_text_example :
    file_text (codes "a") (codes "b") 0
    ≡ codes
        "{\n      \"type\": \"file\",\n      \"name\": \"a\",\n      \"external-contents\": \"b\"\n    }"
unfolding file_text ci_json_string json_byte
file_text_example = refl

directory_text_example :
    directory_text (codes "a") false (codes "X\n") 0
    ≡ codes "{\n  \"type\": \"directory\",\n  \"name\": \"a\",\n  \"contents\": [\nX\n  ]\n}"
unfolding directory_text ci_json_string json_byte
directory_text_example = refl

only_directory :
    (path : Bytes) (l : Bool) → disk.path_info path ≡ some (directory_path, l) → path ≡ codes "r/s"
only_directory path l e = ground (arith, str_eq_iff path (codes "r/s"))

nothing_below :
    (name : Bytes) (l : Bool)
    → disk.path_info (ci_join_path (codes "r/s") name) ≢ some (directory_path, l)
unfolding ci_join_path needs_separator strcmp
nothing_below name l e = ground arith

disk-IsShallow : IsShallow disk 2 (codes "r")
disk-IsShallow names name listed here below below_names below_name below_listed below_here deeper =
    let at_s = only_directory (ci_join_path (codes "r") name) false below in
    nothing_below below_name false
      (ap (λ p. disk.path_info (ci_join_path p below_name)) (sym at_s) ∙ deeper)

render_directory_ends_example :
    render_directory 2 by_insertion disk (codes "r") (codes "r") 4 ≢ exhausted
render_directory_ends_example =
    render_directory_ends 2 by_insertion disk (codes "r") (codes "r") 4 disk-IsShallow

pub ascend_total :
    (x y : RootEntry) → compare_roots x y ≡ Ordering.gt → compare_roots y x ≢ Ordering.gt
unfolding compare_roots
ascend_total x y e k = ground (arith, strcmp-swap x.generic y.generic)

pub ascend_trans :
    (x y z : RootEntry)
    → compare_roots x y ≢ Ordering.gt
    → compare_roots y z ≢ Ordering.gt
    → compare_roots x z ≢ Ordering.gt
unfolding compare_roots
ascend_trans x y z h k e = ground (
  arith,
  str_lt_trans x.generic y.generic z.generic,
  strcmp-eq x.generic y.generic,
  strcmp-eq y.generic z.generic,
)

pub AscendsBy-RootsAscend : (l : List RootEntry) → AscendsBy compare_roots l → RootsAscend l
AscendsBy-RootsAscend [] h = tt
AscendsBy-RootsAscend (e ∷ l) h = (h.0, AscendsBy-RootsAscend l h.1)

abbrev pub roots_by_insertion : RootSort
roots_by_insertion = record {
  arrange = insertion_sort compare_roots;
  arrange-perm = insertion_sort-perm compare_roots;
  arrange-RootsAscend = λ l.
      AscendsBy-RootsAscend _ (insertion_sort-AscendsBy compare_roots ascend_total ascend_trans l);
}

abbrev pub header : Bytes
header = codes "{\n  \"version\": 0,\n  \"case-sensitive\": false,\n  \"roots\": [\n"

abbrev pub footer : Bytes
footer = codes "  ]\n}\n"

pub generates :
    case_insensitive_vfs_generate 2 by_insertion roots_by_insertion disk (codes "r" ∷ [])
    ≡ rendered (header ++ (entry_text 0 overlay true [] ++ footer))
unfolding case_insensitive_vfs_generate insertion_sort insert ci_generic_path
generates = rw (renders, case_insensitive_vfs_generate) refl

generate-json_parse_example :
    (sorted : List RootEntry) × Perm sorted (make_roots (codes "r" ∷ []))
    × RootsAscend sorted
    × (items : Items) × AreTrees disk sorted items
    × (json_parse (header ++ (entry_text 0 overlay true [] ++ footer)) ≡ some (overlay_value items))
generate-json_parse_example =
    generate-json_parse 2 by_insertion roots_by_insertion disk (codes "r" ∷ [])
      (header ++ (entry_text 0 overlay true [] ++ footer)) generates

-- A symbolic link to a directory is refused.
abbrev linked : FileSystem
linked =
    file_system (record { lstat = λ path. some link_mode; stat = λ path. some directory_mode })
      (λ path. some (codes "a" ∷ [], false))

refuses_link :
    render_directory 2 by_insertion linked (codes "r") (codes "r") 4
    ≡ failed (directory_symlink (codes "r/a"))
unfolding ci_collect_preferred_entries list_entries strcmp preferred_of validate_sorted_entries
    insertion_sort insert compare_entries ci_fold_case tolower isupper validate_group
    collapse_sorted_entries span_folded render_directory render_entries render_entry ci_join_path
    needs_separator ci_generic_path ci_path_info
refuses_link = refl

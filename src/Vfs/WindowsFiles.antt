-- ===== src/Vfs/WindowsFiles.antt =====
-- The listing of a directory and `ci_path_info` of tools/case_insensitive_vfs/filesystem.c, in the
-- Windows branches.
pub mod Supported
use hermetic_llvm.Vfs.Paths.{ci_join_path}
use hermetic_llvm.Vfs.Entries.{
  Qsort, Collected, Entry, preferred_of, preferred, unreadable, list_entries,
  ci_collect_preferred_entries,
}
use hermetic_llvm.Bytes.{Bytes, codes}
use hermetic_llvm.Vfs.Overlay.{FileSystem, PathType, other_path, directory_path, regular_path}
use hermetic_llvm.Prelude.{
  ◌≡◌, refl, ◌≢◌, inl, inr, Bool, false, Option, none, some, List, [], ◌∷◌, arith, ltb,
  if◌then◌else◌, Bool-cases, Option-cases, length,
}

-- What `FindFirstFileA` gives for a pattern: the first name, the names that the calls of
-- `FindNextFileA` give behind it, and whether the last call has failed other than by the end of the
-- listing; or an error, which may be that no file was found.
pub data FirstFile : Type 0 where
  first_file : Bytes → List Bytes → Bool → FirstFile
  file_not_found other_error : FirstFile

-- What `GetFileAttributesA` gives for a path: whether it is a directory, and a reparse point.
pub record Attributes : Type 0 where
  pub directory_bit : Bool
  pub reparse_point_bit : Bool

pub record WindowsFiles : Type 0 where
  pub find_first_file : Bytes → FirstFile
  pub attributes : Bytes → Option Attributes

-- What is collected, sorted where it has two entries, as behind the listing in both branches.
unfoldable pub collected_of : Qsort → List Entry → Collected
collected_of q entries =
    if ltb 1 (length entries) then preferred_of (q.sort entries) else preferred entries

-- Behind the call of `FindFirstFileA`.
unfoldable pub collected_from : Qsort → FirstFile → Collected
collected_from q (first_file name names broken) =
    if broken then unreadable else collected_of q (list_entries (name ∷ names))
collected_from q file_not_found = preferred []
collected_from q other_error = unreadable

-- `ci_collect_preferred_entries`, on a directory.
unfoldable pub collect_from_windows : Qsort → WindowsFiles → Bytes → Collected
collect_from_windows q files directory =
    collected_from q (files.find_first_file (ci_join_path directory (codes "*")))

unfoldable pub windows_path_info : WindowsFiles → Bytes → Option (PathType × Bool)
windows_path_info files path = elim (files.attributes path) [
  | none ↦ none
  | some a ↦ some (if a.directory_bit then directory_path else regular_path, a.reparse_point_bit)
]

-- The listing that the other branch would see.
abbrev pub listing_of : FirstFile → Option (List Bytes × Bool)
listing_of (first_file name names broken) = some (name ∷ names, broken)
listing_of file_not_found = some ([], false)
listing_of other_error = none

-- The file system of the overlay on Windows.
abbrev pub windows_file_system : WindowsFiles → FileSystem
windows_file_system files = record {
  listing = λ path. listing_of (files.find_first_file (ci_join_path path (codes "*")));
  path_info = windows_path_info files;
}

-- Windows names no entry that is neither a directory nor a regular file.
pub windows_path_info-other :
    (files : WindowsFiles) (path : Bytes) (is_symlink : Bool)
    → windows_path_info files path ≢ some (other_path, is_symlink)
unfolding windows_path_info
windows_path_info-other files path is_symlink = elim (Option-cases (files.attributes path)) [
  | inl bad ↦ λ e. ground arith
  | inr (a, found) ↦ elim (Bool-cases a.directory_bit) [
    | inl d ↦ λ e. ground arith
    | inr d ↦ λ e. ground arith
  ]
]

collected_from-listing_of :
    (q : Qsort) (f : FirstFile) → collected_from q f ≡ ci_collect_preferred_entries q (listing_of f)
unfolding collected_from collected_of ci_collect_preferred_entries list_entries
collected_from-listing_of q (first_file name names broken) = refl
collected_from-listing_of q file_not_found = refl
collected_from-listing_of q other_error = refl

-- The overlay collects what the Windows branch collects.
collect_from_windows_lem :
    (q : Qsort) (files : WindowsFiles) (directory : Bytes)
    → collect_from_windows q files directory
      ≡ ci_collect_preferred_entries q ((windows_file_system files).listing directory)
unfolding collect_from_windows
collect_from_windows_lem q files directory =
    collected_from-listing_of q (files.find_first_file (ci_join_path directory (codes "*")))

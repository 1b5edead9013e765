-- ===== src/Vfs/PathInfo.antt =====
-- `ci_path_info` of tools/case_insensitive_vfs/filesystem.c, in its POSIX branch.
use hermetic_llvm.Bytes.{Bytes}
use hermetic_llvm.Vfs.Overlay.{PathType, directory_path, FileSystem, regular_path, other_path}
use hermetic_llvm.Prelude.{Bool, true, false, Option, none, some, List}

-- What `S_ISLNK`, `S_ISDIR` and `S_ISREG` tell of a mode.
pub data Mode : Type 0 where
  link_mode directory_mode regular_mode other_mode : Mode

-- The answers of `lstat`, which does not follow a symbolic link, and of `stat`, which does.
pub record Stats : Type 0 where
  pub lstat : Bytes → Option Mode
  pub stat : Bytes → Option Mode

abbrev pub is_link : Mode → Bool
is_link link_mode = true
is_link _ = false

abbrev pub path_type : Mode → PathType
path_type directory_mode = directory_path
path_type regular_mode = regular_path
path_type _ = other_path

-- The type of what a path leads to, and whether the path itself is a symbolic link.
unfoldable pub ci_path_info : Stats → Bytes → Option (PathType × Bool)
ci_path_info stats path = elim (stats.lstat path) [
  | none ↦ none
  | some mode ↦ elim (stats.stat path) [
    | none ↦ none
    | some target ↦ some (path_type target, is_link mode)
  ]
]

-- The file system that the overlay is made of.
abbrev pub file_system : Stats → (Bytes → Option (List Bytes × Bool)) → FileSystem
file_system stats listing = record { listing = listing; path_info = ci_path_info stats }

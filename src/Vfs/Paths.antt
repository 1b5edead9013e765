-- ===== src/Vfs/Paths.antt =====
-- `ci_fold_case`, `ci_join_path` and `ci_generic_path` of tools/case_insensitive_vfs/filesystem.c.
pub mod Laws
use hermetic_llvm.Bytes.{Bytes, tolower}
use hermetic_llvm.Prelude.{
  ◌+◌, ◌/◌, Bool, false, not, ◌&&◌, [], ◌∷◌, ◌++◌, map, ◌==◌, if◌then◌else◌,
}

unfoldable pub ci_fold_case : Bytes → Bytes
ci_fold_case value = map tolower value

-- `left_size != 0 && left[left_size - 1] != '/' && left[left_size - 1] != '\\'`.
unfoldable pub needs_separator : Bytes → Bool
needs_separator [] = false
needs_separator (c ∷ []) = not (c == b'/') && not (c == b'\\')
needs_separator (c ∷ d ∷ rest) = needs_separator (d ∷ rest)

unfoldable pub ci_join_path : Bytes → Bytes → Bytes
ci_join_path left right = if needs_separator left then left ++ b'/' ∷ right else left ++ right

unfoldable pub ci_generic_path : Bytes → Bytes
ci_generic_path [] = []
ci_generic_path (c ∷ path) = (if c == b'\\' then b'/' else c) ∷ ci_generic_path path

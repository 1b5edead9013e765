-- ===== src/Vfs/Paths/Laws.antt =====
-- What the path functions give.
use hermetic_llvm.Bytes.{Bytes, has_byte, tolower_idem}
use hermetic_llvm.Vfs.Paths.{ci_fold_case, ci_generic_path, needs_separator, ci_join_path}
use hermetic_llvm.Prelude.{◌≡◌, refl, ap, false, [], ◌∷◌, ◌++◌, arith, ◌==◌, if◌then◌else◌}

pub ci_fold_case_idem : (value : Bytes) → ci_fold_case (ci_fold_case value) ≡ ci_fold_case value
unfolding ci_fold_case
ci_fold_case_idem [] = refl
ci_fold_case_idem (c ∷ value) = cc (tolower_idem c, ci_fold_case_idem value)

generic-no_backslash : (path : Bytes) → has_byte (ci_generic_path path) b'\\' ≡ false
unfolding ci_generic_path has_byte
generic-no_backslash [] = refl
generic-no_backslash (c ∷ path) = ground (arith, generic-no_backslash path)

generic-unchanged : (path : Bytes) → has_byte path b'\\' ≡ false → ci_generic_path path ≡ path
unfolding ci_generic_path has_byte
generic-unchanged [] h = refl
generic-unchanged (c ∷ path) h = ground (arith, generic-unchanged path)

generic-append : (a b : Bytes) → ci_generic_path (a ++ b) ≡ ci_generic_path a ++ ci_generic_path b
unfolding ci_generic_path
generic-append [] b = refl
generic-append (c ∷ a) b = ap (◌∷◌ (if c == b'\\' then b'/' else c)) (generic-append a b)

generic-separator : (left : Bytes) → needs_separator (ci_generic_path left) ≡ needs_separator left
unfolding ci_generic_path needs_separator
generic-separator [] = refl
generic-separator (c ∷ []) = ground arith
generic-separator (c ∷ d ∷ rest) = generic-separator (d ∷ rest)

slash_cons : (right : Bytes) → ci_generic_path (b'/' ∷ right) ≡ b'/' ∷ ci_generic_path right
unfolding ci_generic_path
slash_cons right = refl

generic-join :
    (left right : Bytes)
    → ci_generic_path (ci_join_path left right)
      ≡ ci_join_path (ci_generic_path left) (ci_generic_path right)
unfolding ci_join_path
generic-join left right = ground (
  arith,
  generic-separator left,
  generic-append left (b'/' ∷ right),
  generic-append left right,
  slash_cons right,
)

-- The generic form of a path has no backslash, a path without backslashes is its own generic form,
-- and joining commutes with it: the generic form of a joined path joins the generic forms.
ci_generic_path_lem :
    (left right : Bytes)
    → (has_byte (ci_generic_path left) b'\\' ≡ false)
      × (has_byte left b'\\' ≡ false → ci_generic_path left ≡ left)
      × (ci_generic_path (ci_join_path left right)
          ≡ ci_join_path (ci_generic_path left) (ci_generic_path right))
ci_generic_path_lem left right =
    (generic-no_backslash left, generic-unchanged left, generic-join left right)

-- ===== src/Vfs/Json/Size.antt =====
-- The bytes that `ci_json_string` writes fit in what it allocates.
use hermetic_llvm.Bytes.{Bytes}
use hermetic_llvm.Vfs.Json.{count_sizes, json_byte, ci_json_string, json_bytes, counted, json_size}
use hermetic_llvm.Prelude.{ℕ, ◌+◌, ◌≤◌, [], ◌∷◌, arith, length, length-append}

json_byte-counted : (c : ℕ) → length (json_byte c) ≤ counted c
unfolding json_byte
json_byte-counted c = ground arith

count_sizes-le :
    (value : Bytes) (size : ℕ) → size + length (json_bytes value) ≤ count_sizes size value
unfolding count_sizes json_bytes
count_sizes-le [] size = omega arith
count_sizes-le (c ∷ value) size = omega (
  arith,
  count_sizes-le value (size + counted c),
  json_byte-counted c,
  length-append (json_byte c) (json_bytes value),
)

-- The quoted string and its terminating zero are no longer than the size that the first loop
-- computes and `ci_json_string` allocates.
pub ci_json_string-le_size : (value : Bytes) → length (ci_json_string value) + 1 ≤ json_size value
unfolding ci_json_string json_size
ci_json_string-le_size value =
    omega (arith, count_sizes-le value 3, length-append (json_bytes value) (b'"' ∷ []))

-- ===== src/Vfs/Json.antt =====
-- `ci_json_string` of tools/case_insensitive_vfs/filesystem.c.
pub mod Size
pub mod RoundTrip
use hermetic_llvm.Bytes.{Bytes}
use hermetic_llvm.Prelude.{ℕ, ◌+◌, ◌-◌, ◌/◌, ◌%◌, ◌||◌, [], ◌∷◌, ◌++◌, ltb, ◌==◌, if◌then◌else◌}

-- The bytes that the first loop counts for one byte of the value.
abbrev pub counted : ℕ → ℕ
counted c = if ltb c 0x20 then 6 else if c == b'"' || c == b'\\' then 2 else 1

pub count_sizes : ℕ → Bytes → ℕ
count_sizes size [] = size
count_sizes size (c ∷ value) = count_sizes (size + counted c) value

-- The size that is allocated.
unfoldable pub json_size : Bytes → ℕ
unfolding count_sizes
json_size value = count_sizes 3 value

-- `hex[digit]`, for a digit below 16.
abbrev pub hex : ℕ → ℕ
hex digit = if ltb digit 10 then b'0' + digit else b'a' + (digit - 10)

abbrev pub escaped_byte : ℕ → Bytes
escaped_byte c = b'\\' ∷ c ∷ []

-- What the second loop writes for one byte: the `switch`, then the two tests.
unfoldable pub json_byte : ℕ → Bytes
json_byte c =
    if c == b'"'
    then escaped_byte b'"'
    else if c == b'\\'
    then escaped_byte b'\\'
    else if c == 8
    then escaped_byte b'b'
    else if c == 12
    then escaped_byte b'f'
    else if c == b'\n'
    then escaped_byte b'n'
    else if c == b'\r'
    then escaped_byte b'r'
    else if c == b'\t'
    then escaped_byte b't'
    else if ltb c 0x20
    then b'\\' ∷ b'u' ∷ b'0' ∷ b'0' ∷ hex (c / 16) ∷ hex (c % 16) ∷ []
    else c ∷ []

unfoldable pub json_bytes : Bytes → Bytes
json_bytes [] = []
json_bytes (c ∷ value) = json_byte c ++ json_bytes value

unfoldable pub ci_json_string : Bytes → Bytes
unfolding json_bytes
ci_json_string value = b'"' ∷ (json_bytes value ++ b'"' ∷ [])

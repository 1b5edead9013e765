-- ===== src/Vfs/Json/RoundTrip.antt =====
-- A reader of JSON strings, and that it reads back what `ci_json_string` writes.
use hermetic_llvm.Bytes.{Bytes}
use hermetic_llvm.Vfs.Json.{json_bytes, ci_json_string, json_byte}
use hermetic_llvm.Prelude.{
  ℕ, zero, suc, ◌+◌, ◌-◌, ◌*◌, ◌≡◌, refl, ◌&&◌, ◌||◌, Option, none, some, [], ◌∷◌, ◌++◌,
  append_assoc, arith, ltb, leb, ◌==◌, if◌then◌else◌,
}

-- Where the reader stands: before the string, in its text, behind a backslash, in `\uXXXX` with
-- the digits that are missing and the number so far, or behind the string.
pub data Mode : Type 0 where
  before text escape behind : Mode
  unicode : ℕ → ℕ → Mode

-- The byte for the letter of a two-character escape.
abbrev pub unescape : ℕ → Option ℕ
unescape c =
    if c == b'"' || c == b'\\' || c == b'/'
    then some c
    else if c == b'b'
    then some 8
    else if c == b'f'
    then some 12
    else if c == b'n'
    then some b'\n'
    else if c == b'r'
    then some b'\r'
    else if c == b't'
    then some b'\t'
    else none

abbrev pub hex_value : ℕ → Option ℕ
hex_value c =
    if leb b'0' c && leb c b'9'
    then some (c - b'0')
    else if leb b'a' c && leb c b'f'
    then some (c - b'a' + 10)
    else none

-- The next place and the bytes that were read, by the grammar of RFC 8259; `\u` escapes are read
-- where they stand for an ASCII character.
unfoldable pub json_step : Mode → ℕ → Option (Mode × Bytes)
json_step before c = if c == b'"' then some (text, []) else none
json_step text c =
    if c == b'"'
    then some (behind, [])
    else if c == b'\\'
    then some (escape, [])
    else if ltb c 0x20
    then none
    else some (text, c ∷ [])
json_step escape c =
    if c == b'u'
    then some (unicode 4 0, [])
    else elim (unescape c) [ none ↦ none | some b ↦ some (text, b ∷ []) ]
json_step behind c = none
json_step (unicode zero n) c = none
json_step (unicode (suc k) n) c = elim (hex_value c) [
  | none ↦ none
  | some d ↦
      let m = 16 * n + d in
      if k == 0 then (if ltb m 128 then some (text, m ∷ []) else none) else some (unicode k m, [])
]

unfoldable pub json_read : Mode → Bytes → Option Bytes
unfolding json_step
json_read behind [] = some []
json_read _ [] = none
json_read mode (c ∷ rest) = elim (json_step mode c) [
  | none ↦ none
  | some (mode', out) ↦ elim (json_read mode' rest) [ none ↦ none | some v ↦ some (out ++ v) ]
]

-- The reader passes what is written for one byte, and yields the byte.
read-json_byte :
    (c : ℕ) (rest v : Bytes)
    → json_read text rest ≡ some v
    → json_read text (json_byte c ++ rest) ≡ some (c ∷ v)
unfolding json_read json_byte
read-json_byte c rest v h = ground arith

read-json_bytes : (value : Bytes) → json_read text (json_bytes value ++ b'"' ∷ []) ≡ some value
unfolding json_bytes
read-json_bytes [] = unfold json_read in refl
read-json_bytes (c ∷ value) =
    rw (append_assoc (json_byte c) (json_bytes value) (b'"' ∷ []))
      (read-json_byte c (json_bytes value ++ b'"' ∷ []) value (read-json_bytes value))

-- A JSON reader reads what `ci_json_string` writes for any string as exactly that string.
pub ci_json_string-read : (value : Bytes) → json_read before (ci_json_string value) ≡ some value
unfolding json_read ci_json_string
ci_json_string-read value = ground (arith, read-json_bytes value)

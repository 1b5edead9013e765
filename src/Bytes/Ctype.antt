-- ===== src/Bytes/Ctype.antt =====
-- Byte strings, literals and <ctype.h>.
use Prim.Native.Char.{code}
use Prim.Native.String.{String}
use hermetic_llvm.Prelude.{
  ℕ, ◌+◌, Bool, true, false, ◌&&◌, ◌||◌, List, [], ◌∷◌, leb, ◌==◌, if◌then◌else◌, ◌≡◌, arith,
}

abbrev pub Bytes : Type 0
Bytes = List ℕ

-- The bytes of an ASCII literal.
abbrev pub codes : String → Bytes
codes String.[] = []
codes (String.◌∷◌ c s) = code c ∷ codes s

unfoldable pub isspace : ℕ → Bool
isspace c = c == b' ' || (leb 9 c && leb c 13)

unfoldable pub isupper : ℕ → Bool
isupper c = leb b'A' c && leb c b'Z'

unfoldable pub isdigit : ℕ → Bool
isdigit c = leb b'0' c && leb c b'9'

unfoldable pub tolower : ℕ → ℕ
unfolding isupper
tolower c = if isupper c then c + 32 else c

pub tolower_idem : (c : ℕ) → tolower (tolower c) ≡ tolower c
unfolding tolower
tolower_idem c = ground arith

abbrev pub is_empty : Bytes → Bool
is_empty [] = true
is_empty (_ ∷ _) = false

-- What a C string made of these bytes holds: all before the first zero.
unfoldable pub c_string : Bytes → Bytes
c_string [] = []
c_string (c ∷ cs) = if c == 0 then [] else c ∷ c_string cs

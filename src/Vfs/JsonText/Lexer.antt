-- ===== src/Vfs/JsonText/Lexer.antt =====
-- The tokens of a JSON text.
use hermetic_llvm.Bytes.{Bytes, codes, str_eq, is_empty}
use hermetic_llvm.Vfs.Json.RoundTrip
use hermetic_llvm.Prelude.{
  ℕ, Bool, false, not, ◌&&◌, ◌||◌, Option, none, some, List, [], ◌∷◌, ◌++◌, leb, ◌==◌,
  if◌then◌else◌, any_of,
}

pub data Token : Type 0 where
  open_object close_object open_array close_array comma colon : Token
  -- a string, as it is read
  quoted : Bytes → Token
  -- a literal name or a number without sign, fraction and exponent, as it is spelled
  word : Bytes → Token

-- Where the lexer stands: between tokens, in a string with what is read of it, or in a word.
pub data Lexing : Type 0 where
  between : Lexing
  in_string : RoundTrip.Mode → Bytes → Lexing
  in_word : Bytes → Lexing

abbrev pub is_blank : ℕ → Bool
is_blank c = c == b' ' || c == b'\n' || c == b'\t' || c == b'\r'

abbrev pub is_digit : ℕ → Bool
is_digit c = leb b'0' c && leb c b'9'

abbrev pub is_word_byte : ℕ → Bool
is_word_byte c = leb b'a' c && leb c b'z' || is_digit c

abbrev pub is_number : Bytes → Bool
is_number [] = false
is_number (c ∷ digits) =
    is_digit c
    && not (any_of (λ (d : ℕ). not (is_digit d)) digits)
    && (not (c == b'0') || is_empty digits)

abbrev pub is_literal : Bytes → Bool
is_literal w =
    str_eq w (codes "true") || str_eq w (codes "false") || str_eq w (codes "null") || is_number w

abbrev pub punctuation : ℕ → Option Token
punctuation c =
    if c == b'{'
    then some open_object
    else if c == b'}'
    then some close_object
    else if c == b'['
    then some open_array
    else if c == b']'
    then some close_array
    else if c == b','
    then some comma
    else if c == b':'
    then some colon
    else none

-- The next place and the tokens that are complete, from between two tokens.
pub between_step : ℕ → Option (Lexing × List Token)
between_step c =
    if is_blank c
    then some (between, [])
    else if c == b'"'
    then some (in_string RoundTrip.text [], [])
    else if is_word_byte c
    then some (in_word (c ∷ []), [])
    else elim (punctuation c) [ none ↦ none | some t ↦ some (between, t ∷ []) ]

-- Where a string goes on, or ends behind its quote.
abbrev pub string_step : Bytes → RoundTrip.Mode × Bytes → Lexing × List Token
string_step read (RoundTrip.behind, out) = (between, quoted (read ++ out) ∷ [])
string_step read (mode, out) = (in_string mode (read ++ out), [])

pub lex_step : Lexing → ℕ → Option (Lexing × List Token)
unfolding between_step RoundTrip.json_step
lex_step between c = between_step c
lex_step (in_string mode read) c = elim (RoundTrip.json_step mode c) [
  | none ↦ none
  | some found ↦ some (string_step read found)
]
lex_step (in_word w) c =
    if is_word_byte c
    then some (in_word (w ++ c ∷ []), [])
    else if is_literal w
    then elim (between_step c) [ none ↦ none | some (place, ts) ↦ some (place, word w ∷ ts) ]
    else none

abbrev pub prepend : List Token → Option (List Token) → Option (List Token)
prepend [] found = found
prepend (t ∷ ts) found = elim (prepend ts found) [ none ↦ none | some us ↦ some (t ∷ us) ]

unfoldable pub lex : Lexing → Bytes → Option (List Token)
unfolding lex_step
lex between [] = some []
lex (in_string mode read) [] = none
lex (in_word w) [] = if is_literal w then some (word w ∷ []) else none
lex place (c ∷ rest) = elim (lex_step place c) [
  | none ↦ none
  | some (place', ts) ↦ prepend ts (lex place' rest)
]

-- ===== src/Vfs/JsonText/Pieces.antt =====
-- The tokens of a text that is put together of pieces.
use hermetic_llvm.Vfs.Overlay.{buffer_indent}
use hermetic_llvm.Vfs.Json.{json_bytes, ci_json_string, json_byte}
use hermetic_llvm.Bytes.{Bytes}
use hermetic_llvm.Vfs.JsonText.Lexer.{lex, Token, quoted, prepend, between, in_string}
use hermetic_llvm.Vfs.Json.RoundTrip
use hermetic_llvm.Prelude.{
  ℕ, zero, suc, ◌≡◌, refl, ap, ◌∙◌, some, List, [], ◌∷◌, ◌++◌, append-nil, append_assoc, arith,
}

-- Behind a piece of text, the lexer goes on between two tokens, and what it gives for the rest is
-- put behind the tokens of the piece.
pub record Lexes (piece : Bytes) (f : List Token → List Token) : Type 0 where
  pub passes :
      (rest : Bytes) (ts : List Token)
      → lex between rest ≡ some ts
      → lex between (piece ++ rest) ≡ some (f ts)

prepend_lem : (ts us : List Token) → prepend ts (some us) ≡ some (ts ++ us)
prepend_lem [] us = refl
prepend_lem (t ∷ ts) us = rw (prepend_lem ts us) refl

-- A piece that is written out.
pub written-Lexes :
    (piece : Bytes) (ts : List Token)
    → ((rest : Bytes) → lex between (piece ++ rest) ≡ prepend ts (lex between rest))
    → Lexes piece (λ us. ts ++ us)
written-Lexes piece ts h = record {
  passes = λ rest us e. h rest ∙ ap (prepend ts) e ∙ prepend_lem ts us;
}

infixr 5 ◌▸◌
-- One piece behind another.
pub ◌▸◌ :
    {piece other : Bytes} {f g : List Token → List Token}
    → Lexes piece f
    → Lexes other g
    → Lexes (piece ++ other) (λ us. f (g us))
◌▸◌ {piece} {other} {f} {g} here there = record {
  passes = λ rest ts e.
      rw (append_assoc piece other rest)
        (here.passes (other ++ rest) (g ts) (there.passes rest ts e));
}

pub buffer_indent-Lexes : (spaces : ℕ) → Lexes (buffer_indent spaces) (λ us. us)
unfolding lex
buffer_indent-Lexes zero = record { passes = λ rest ts e. e }
buffer_indent-Lexes (suc spaces) = record {
  passes = λ rest ts e. rw ((buffer_indent-Lexes spaces).passes rest ts e) refl;
}

-- In a string, the lexer passes what is written for one byte.
lex-json_byte :
    (c : ℕ) (read rest : Bytes)
    → lex (in_string RoundTrip.text read) (json_byte c ++ rest)
      ≡ lex (in_string RoundTrip.text (read ++ c ∷ [])) rest
unfolding lex json_byte
lex-json_byte c read rest = ground (arith, append-nil read)

lex-json_bytes :
    (value read rest : Bytes) (ts : List Token)
    → lex between rest ≡ some ts
    → lex (in_string RoundTrip.text read) (json_bytes value ++ b'"' ∷ rest)
      ≡ some (quoted (read ++ value) ∷ ts)
unfolding json_bytes
lex-json_bytes [] read rest ts e = unfold lex in rw e refl
lex-json_bytes (c ∷ value) read rest ts e =
    rw
      (
        append_assoc (json_byte c) (json_bytes value) (b'"' ∷ rest),
        lex-json_byte c read (json_bytes value ++ b'"' ∷ rest),
        lex-json_bytes value (read ++ c ∷ []) rest ts e,
        append_assoc read (c ∷ []) value,
      )
      refl

pub ci_json_string-Lexes : (value : Bytes) → Lexes (ci_json_string value) (λ us. quoted value ∷ us)
unfolding ci_json_string lex
ci_json_string-Lexes value = record {
  passes = λ rest ts e.
      ap (lex (in_string RoundTrip.text [])) (append_assoc (json_bytes value) (b'"' ∷ []) rest)
      ∙ lex-json_bytes value [] rest ts e;
}

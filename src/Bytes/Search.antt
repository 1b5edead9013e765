-- ===== src/Bytes/Search.antt =====
-- Prefixes, suffixes, and the searches that return a pointer: a pointer into a string is the pair
-- of what stands before it and what stands from it on.
use hermetic_llvm.Prelude.{
  ℕ, ◌-◌, Bool, true, false, ◌&&◌, ◌||◌, [], ◌∷◌, Option, none, some, leb, ◌==◌, if◌then◌else◌,
  length, drop,
}
use hermetic_llvm.Bytes.Ctype.{Bytes, isspace}
use hermetic_llvm.Bytes.Compare.{str_eq}

-- `strncmp(value, prefix, n) == 0` with `n` the length of `prefix`.
unfoldable pub has_prefix : Bytes → Bytes → Bool
has_prefix value [] = true
has_prefix [] (p ∷ ps) = false
has_prefix (v ∷ vs) (p ∷ ps) = v == p && has_prefix vs ps

unfoldable pub has_suffix : Bytes → Bytes → Bool
has_suffix value suffix =
    leb (length suffix) (length value) && str_eq (drop (length value - length suffix) value) suffix

-- `strstr`: the first place where `needle` stands.
unfoldable pub strstr : Bytes → Bytes → Option (Bytes × Bytes)
unfolding has_prefix
strstr [] needle = if has_prefix [] needle then some ([], []) else none
strstr (c ∷ cs) needle =
    if has_prefix (c ∷ cs) needle
    then some ([], c ∷ cs)
    else elim (strstr cs needle) [ none ↦ none | some (b, f) ↦ some (c ∷ b, f) ]

unfoldable pub contains : Bytes → Bytes → Bool
unfolding strstr
contains value substring = elim (strstr value substring) [ none ↦ false | some _ ↦ true ]

-- `strchr(value, c) != NULL` for a byte that is not zero.
unfoldable pub has_byte : Bytes → ℕ → Bool
has_byte [] c = false
has_byte (v ∷ vs) c = v == c || has_byte vs c

-- `strrchr`: the last place where the byte stands.
unfoldable pub strrchr : Bytes → ℕ → Option (Bytes × Bytes)
strrchr [] c = none
strrchr (v ∷ vs) c = elim (strrchr vs c) [
  | some (b, f) ↦ some (v ∷ b, f)
  | none ↦ if v == c then some ([], v ∷ vs) else none
]

-- `while (isspace(*p)) ++p`.
unfoldable pub skip_space : Bytes → Bytes
skip_space [] = []
skip_space (c ∷ cs) = if isspace c then skip_space cs else c ∷ cs

-- `while (*p != '\0' && !isspace(*p)) ++p`: what was passed, and what is left.
unfoldable pub span_word : Bytes → Bytes × Bytes
span_word [] = ([], [])
span_word (c ∷ cs) = let (w, r) = span_word cs in if isspace c then ([], c ∷ cs) else (c ∷ w, r)

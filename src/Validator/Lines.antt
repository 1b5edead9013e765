-- ===== src/Validator/Lines.antt =====
-- A line of `llvm-nm -A -P` gives the entry that it prints.
use hermetic_llvm.Validator.{memchr, parse_nm_line, should_keep_type, parse_symbol, parse_type}
use hermetic_llvm.Bytes.{Bytes, span_word, isspace, skip_space}
use hermetic_llvm.Prelude.{
  ℕ, ◌≡◌, refl, ap, ◌∙◌, inl, inr, true, false, none, some, [], ◌∷◌, ◌++◌, arith, ◌==◌,
  if◌then◌else◌, Bool-cases, All,
}

abbrev Lacks : ℕ → Bytes → Type 0
Lacks c s = All (λ x. (x == c) ≡ false) s

memchr-first :
    (c : ℕ) (before after : Bytes)
    → Lacks c before
    → memchr (before ++ c ∷ after) c ≡ some (before, after)
unfolding memchr
memchr-first c [] after h = ground arith
memchr-first c (x ∷ before) after h = ground (arith, memchr-first c before after h.1)

-- A word of the line: at least one byte, none of them white space.
abbrev pub IsWord : Bytes → Type 0
IsWord [] = ⊥
IsWord (c ∷ w) = All (λ x. isspace x ≡ false) (c ∷ w)

span_word-space :
    (w : Bytes) (c : ℕ) (rest : Bytes)
    → All (λ x. isspace x ≡ false) w
    → isspace c ≡ true
    → span_word (w ++ c ∷ rest) ≡ (w, c ∷ rest)
unfolding span_word
span_word-space [] c rest h k = rw k refl
span_word-space (x ∷ w) c rest h k = ground (arith, span_word-space w c rest h.1 k)

skip_space-word :
    (symbol rest : Bytes) → IsWord symbol → skip_space (symbol ++ rest) ≡ symbol ++ rest
unfolding skip_space
skip_space-word [] rest w = absurd w
skip_space-word (c ∷ symbol) rest w = ground (arith, w.0)

parse_symbol-word :
    (object symbol rest : Bytes)
    → IsWord symbol
    → parse_symbol object (symbol ++ b' ' ∷ rest)
      ≡ parse_type object symbol (skip_space (b' ' ∷ rest))
unfolding parse_symbol isspace
parse_symbol-word object [] rest w = absurd w
parse_symbol-word object (c ∷ symbol) rest w =
    ap (λ (p : Bytes × Bytes). parse_type object p.0 (skip_space p.1))
      (span_word-space (c ∷ symbol) b' ' rest w refl)

parse_type-letter :
    (object symbol tail : Bytes) (type : ℕ)
    → isspace type ≡ false
    → parse_type object symbol (skip_space (b' ' ∷ type ∷ b' ' ∷ tail)) ≡ (
        if should_keep_type type
        then some (record { symbol = symbol; object = object; type = type })
        else none)
unfolding parse_type skip_space
parse_type-letter object symbol tail type t =
    let space : isspace b' ' ≡ true = unfold isspace in refl in
    rw (space, t, space)
      (elim (Bool-cases (should_keep_type type)) [ inl y ↦ rw y refl | inr n ↦ rw n refl ])

-- The line `archive[object]: symbol type ...` gives the entry of its object, symbol and type where
-- the type is one to keep, and none otherwise; here the archive's path has no `[`, the object's name
-- no `]`, the symbol no white space, and the type is none.
pub parse_nm_line_lem :
    (archive object symbol tail : Bytes) (type : ℕ)
    → Lacks b'[' archive
    → Lacks b']' object
    → IsWord symbol
    → isspace type ≡ false
    → parse_nm_line
        (archive ++ b'[' ∷ (object ++ b']' ∷ b':' ∷ b' ' ∷ (symbol ++ b' ' ∷ type ∷ b' ' ∷ tail)))
      ≡ (if should_keep_type type
          then some (record { symbol = symbol; object = object; type = type })
          else none)
unfolding parse_nm_line
parse_nm_line_lem archive object symbol tail type a o w t =
    let after = skip_space-word symbol (b' ' ∷ type ∷ b' ' ∷ tail) w in
    let word = parse_symbol-word object symbol (type ∷ b' ' ∷ tail) w in
    let behind : Bytes = b':' ∷ b' ' ∷ (symbol ++ b' ' ∷ type ∷ b' ' ∷ tail) in
    let opening = memchr-first b'[' archive (object ++ b']' ∷ behind) a in
    let closing = memchr-first b']' object behind o in
    rw (opening, closing, parse_nm_line)
      (ap (parse_symbol object) after ∙ word ∙ parse_type-letter object symbol tail type t)

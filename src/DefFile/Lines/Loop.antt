-- ===== src/DefFile/Lines/Loop.antt =====
-- What the loop over `read_line` sees of a text, line by line, and that its fuel is enough.
use hermetic_llvm.DefFile.Lines.{read_bytes, read_loop, read_line, read_lines}
use hermetic_llvm.Bytes.{c_string, Bytes}
use hermetic_llvm.Prelude.{
  ℕ, zero, suc, ◌≤◌, ◌<◌, ◌≡◌, refl, ap, ◌≢◌, inl, inr, false, some, [], ◌∷◌, ◌++◌, arith,
  Option-cases, length, length-append, All, All-append,
}

-- The bytes of a line that reads back as itself.
abbrev pub IsLine : Bytes → Type 0
IsLine l = All (λ c. (c ≢ b'\n') × (c ≢ 0)) l

pub IsLine-append : (a b : Bytes) → IsLine a → IsLine b → IsLine (a ++ b)
IsLine-append a b = All-append _ a b

c_string-IsLine : (l : Bytes) → IsLine l → c_string l ≡ l
unfolding c_string
c_string-IsLine [] h = refl
c_string-IsLine (c ∷ l) h = ground (arith, c_string-IsLine l h.1, h.0.1)

read_bytes-line : (l rest : Bytes) → IsLine l → read_bytes (l ++ b'\n' ∷ rest) ≡ (l, rest, false)
unfolding read_bytes
read_bytes-line [] rest h = refl
read_bytes-line (c ∷ l) rest h = ground (arith, read_bytes-line l rest h.1, h.0.0)

read_line_lem : (l rest : Bytes) → IsLine l → read_line (l ++ b'\n' ∷ rest) ≡ some (l, rest)
unfolding read_line
read_line_lem l rest h = ground (arith, read_bytes-line l rest h, c_string-IsLine l h)

read_bytes-shorter : (file : Bytes) → length (read_bytes file).1 ≤ length file
unfolding read_bytes
read_bytes-shorter [] = omega arith
read_bytes-shorter (c ∷ cs) = ground (arith, read_bytes-shorter cs)

-- A line that `read_line` returns has taken at least one byte.
read_line-shorter :
    (file line rest : Bytes) → read_line file ≡ some (line, rest) → length rest < length file
unfolding read_line read_bytes
read_line-shorter [] line rest h = absurd (ground arith)
read_line-shorter (c ∷ cs) line rest h = ground (arith, read_bytes-shorter cs)

-- Any two amounts of fuel above the length of the file see the same lines.
read_loop-fuel :
    (f g : ℕ) (file : Bytes)
    → length file < f
    → length file < g
    → read_loop f file ≡ read_loop g file
unfolding read_loop
read_loop-fuel zero g file h k = absurd (omega arith)
read_loop-fuel (suc f) zero file h k = absurd (omega arith)
read_loop-fuel (suc f) (suc g) file h k = elim (Option-cases (read_line file)) [
  | inl end ↦ rw (end, read_loop) refl
  | inr (p, e) ↦
      let shorter = read_line-shorter file p.0 p.1 e in
      rw (e, read_loop) (ap (◌∷◌ p.0) (read_loop-fuel f g p.1 (omega arith) (omega arith)))
]

-- The loop sees a line that a newline ends, and then the lines of what follows.
pub read_lines-cons :
    (l rest : Bytes) → IsLine l → read_lines (l ++ b'\n' ∷ rest) ≡ l ∷ read_lines rest
unfolding read_lines
read_lines-cons l rest h =
    let n = length-append l (b'\n' ∷ rest) in
    rw (read_line_lem l rest h, read_loop)
      (ap (◌∷◌ l) (
        read_loop-fuel (length (l ++ b'\n' ∷ rest)) (suc (length rest)) rest (omega arith)
          (omega arith)))

pub read_lines-nil : read_lines [] ≡ []
unfolding read_lines read_line
read_lines-nil = refl

-- ===== src/DefFile/Symbols/Normalize.antt =====
-- `normalize_stdcall` takes `_name@size` to `name`, and leaves every other symbol alone.
use hermetic_llvm.DefFile.Symbols.{all_digits, normalize_stdcall, is_stack_size}
use hermetic_llvm.Bytes.{strrchr, Bytes, has_byte, isdigit}
use hermetic_llvm.Prelude.{
  ℕ, ◌≡◌, refl, ◌⊎◌, inl, inr, true, false, none, some, [], ◌∷◌, ◌++◌, arith, ◌==◌, ==_iff,
  Bool-cases, Option-cases, drop,
}

strrchr-none : (d : Bytes) (c : ℕ) → has_byte d c ≡ false → strrchr d c ≡ none
unfolding strrchr has_byte
strrchr-none [] c h = refl
strrchr-none (x ∷ d) c h = ground (arith, strrchr-none d c)

strrchr-last :
    (a d : Bytes) (c : ℕ) → has_byte d c ≡ false → strrchr (a ++ c ∷ d) c ≡ some (a, c ∷ d)
unfolding strrchr
strrchr-last [] d c h = ground (arith, strrchr-none d c h)
strrchr-last (x ∷ a) d c h = ground (arith, strrchr-last a d c h)

strrchr-some :
    (s : Bytes) (c : ℕ) {b f : Bytes}
    → strrchr s c ≡ some (b, f)
    → (d : Bytes) × (f ≡ c ∷ d) × (s ≡ b ++ c ∷ d)
unfolding strrchr
strrchr-some [] c h = absurd (ground arith)
strrchr-some (x ∷ s) c h = elim (Option-cases (strrchr s c)) [
  | inl gone ↦ (s, ground arith, ground arith)
  | inr (p, found) ↦
      let (d, e, g) = strrchr-some s c {b = p.0} {f = p.1} found in (d, ground arith, ground arith)
]

all_digits-no_at : (d : Bytes) → all_digits d ≡ true → has_byte d b'@' ≡ false
unfolding all_digits has_byte isdigit
all_digits-no_at [] h = refl
all_digits-no_at (x ∷ d) h = ground (arith, all_digits-no_at d)

-- `symbol` is `_name@size` with a nonempty decimal size.
pub record IsDecorated (symbol name : Bytes) : Type 0 where
  pub digit : ℕ
  pub digits : Bytes
  pub numeric : all_digits (digit ∷ digits) ≡ true
  pub spelled : symbol ≡ b'_' ∷ (name ++ b'@' ∷ digit ∷ digits)

normalize_decorated :
    (name : Bytes) (digit : ℕ) (digits : Bytes)
    → all_digits (digit ∷ digits) ≡ true
    → normalize_stdcall (b'_' ∷ (name ++ b'@' ∷ digit ∷ digits)) ≡ name
unfolding normalize_stdcall
normalize_decorated name digit digits h =
    let last = strrchr-last (b'_' ∷ name) (digit ∷ digits) b'@' (all_digits-no_at _ h) in
    rw (last, normalize_stdcall) (ground arith)

size_digits :
    (c : ℕ) (d : Bytes)
    → is_stack_size (c ∷ d) ≡ true
    → (digit : ℕ) × (digits : Bytes) × (d ≡ digit ∷ digits) × (all_digits d ≡ true)
size_digits c [] h = absurd (ground arith)
size_digits c (digit ∷ digits) h = (digit, digits, refl, h)

-- A size behind the last `@` of a symbol that begins with `_`.
IsDecorated-at :
    (cs b d : Bytes)
    → is_stack_size (b'@' ∷ d) ≡ true
    → b'_' ∷ cs ≡ b ++ b'@' ∷ d
    → IsDecorated (b'_' ∷ cs) (drop 1 b)
IsDecorated-at cs [] d h e = absurd (ground arith)
IsDecorated-at cs (x ∷ b) d h e =
    let (digit, digits, same, numeric) = size_digits b'@' d h in
    record { digit = digit; digits = digits; numeric = rw (← same) numeric; spelled = ground arith }

normalize_at :
    (cs b f : Bytes)
    → strrchr (b'_' ∷ cs) b'@' ≡ some (b, f)
    → (normalize_stdcall (b'_' ∷ cs) ≡ b'_' ∷ cs)
      ⊎ IsDecorated (b'_' ∷ cs) (normalize_stdcall (b'_' ∷ cs))
normalize_at cs b f e = elim (Bool-cases (is_stack_size f)) [
  | inr other ↦ inl (unfold normalize_stdcall in ground arith)
  | inl size ↦
      let (d, g, spelled) = strrchr-some (b'_' ∷ cs) b'@' e in
      let same : normalize_stdcall (b'_' ∷ cs) ≡ drop 1 b =
        unfold normalize_stdcall in ground arith in
      rw same (inr (IsDecorated-at cs b d (rw (← g) size) spelled))
]

normalize_underscore :
    (cs : Bytes)
    → (normalize_stdcall (b'_' ∷ cs) ≡ b'_' ∷ cs)
      ⊎ IsDecorated (b'_' ∷ cs) (normalize_stdcall (b'_' ∷ cs))
normalize_underscore cs = elim (Option-cases (strrchr (b'_' ∷ cs) b'@')) [
  | inl gone ↦ inl (unfold normalize_stdcall in ground arith)
  | inr (p, found) ↦ normalize_at cs p.0 p.1 found
]

normalize_cases :
    (symbol : Bytes)
    → (normalize_stdcall symbol ≡ symbol) ⊎ IsDecorated symbol (normalize_stdcall symbol)
normalize_cases [] = inl (unfold normalize_stdcall in refl)
normalize_cases (c ∷ cs) = elim (Bool-cases (c == b'_')) [
  | inr other ↦ inl (unfold normalize_stdcall in ground arith)
  | inl under ↦ rw ((==_iff c b'_').0 under) (normalize_underscore cs)
]

-- `normalize_stdcall` takes every symbol `_name@size`, with a nonempty decimal size, to `name`,
-- and where it changes a symbol, the symbol is of that form for the name that it returns.
pub normalize_stdcall_lem :
    (symbol : Bytes)
    → ((name : Bytes) → IsDecorated symbol name → normalize_stdcall symbol ≡ name)
      × ((normalize_stdcall symbol ≡ symbol) ⊎ IsDecorated symbol (normalize_stdcall symbol))
normalize_stdcall_lem symbol = (
  λ name d. rw (d.spelled) (normalize_decorated name d.digit d.digits d.numeric),
  normalize_cases symbol,
)

-- ===== src/DefFile/NmOutput/Separator.antt =====
-- The loop over `strstr` finds the last separator, and its fuel is enough.
use hermetic_llvm.DefFile.NmOutput.{separator, find_separator}
use hermetic_llvm.Bytes.{has_prefix, Bytes, strstr, contains}
use hermetic_llvm.Prelude.{
  ◌≡◌, refl, inl, inr, true, false, some, [], ◌∷◌, ◌++◌, arith, Bool-cases, Option-cases, length,
  drop, none, ℕ, Option, ◌<◌, suc, zero, ◌∙◌, ap, length-append, sym, append_assoc,
}

-- `at` is what stands behind the last place of the separator in `text`.
pub record IsBehindLast (text at : Bytes) : Type 0 where
  pub before : Bytes
  pub splits : text ≡ before ++ (separator ++ at)
  pub last : contains at separator ≡ false

has_prefix-append : (p v : Bytes) → has_prefix v p ≡ true → v ≡ p ++ drop (length p) v
unfolding has_prefix
has_prefix-append [] v h = refl
has_prefix-append (x ∷ p) [] h = absurd (ground arith)
has_prefix-append (x ∷ p) (y ∷ v) h = ground (arith, has_prefix-append p v)

pub strstr-some :
    (text needle b f : Bytes)
    → strstr text needle ≡ some (b, f)
    → (text ≡ b ++ f) × (f ≡ needle ++ drop (length needle) f)
unfolding strstr
strstr-some [] needle b f h = ground (arith, has_prefix-append needle [])
strstr-some (c ∷ cs) needle b f h = elim (Bool-cases (has_prefix (c ∷ cs) needle)) [
  | inl found ↦ ground (arith, has_prefix-append needle (c ∷ cs) found)
  | inr later ↦ elim (Option-cases (strstr cs needle)) [
    | inl gone ↦ absurd (ground arith)
    | inr (p, e) ↦ ground (arith, strstr-some cs needle p.0 p.1 e)
  ]
]

find_separator-none :
    (fuel : ℕ) (text : Bytes) (found : Option Bytes)
    → strstr text separator ≡ none
    → find_separator fuel text found ≡ found
unfolding find_separator
find_separator-none zero text found h = refl
find_separator-none (suc fuel) text found h = rw (h, find_separator) refl

none-contains : (text needle : Bytes) → strstr text needle ≡ none → contains text needle ≡ false
unfolding contains
none-contains text needle h = rw (h, contains) refl

-- Where there is a separator, the loop ends behind the last one.
pub find_separator-some :
    (fuel : ℕ) (text : Bytes) (found : Option Bytes) (b f : Bytes)
    → length text < fuel
    → strstr text separator ≡ some (b, f)
    → (at : Bytes) × (find_separator fuel text found ≡ some at) × IsBehindLast text at
unfolding find_separator
find_separator-some zero text found b f h e = absurd (omega arith)
find_separator-some (suc fuel) text found b f h e =
    let next = drop 2 f in
    let (whole, here) = strstr-some text separator b f e in
    let split = ap length whole ∙ length-append b f in
    let longer : length f ≡ suc (suc (length next)) = ap length here in
    elim (Option-cases (strstr next separator)) [
      | inl gone ↦ (
        next,
        rw (e, find_separator) (find_separator-none fuel next (some next) gone),
        record {
          before = b;
          splits = whole ∙ ap (◌++◌ b) here;
          last = none-contains next separator gone;
        },
      )
      | inr (p, e') ↦
          let (at, found', behind) =
            find_separator-some fuel next (some next) p.0 p.1 (omega arith) e' in
          (
            at,
            rw (e, find_separator) found',
            record {
              before = b ++ (separator ++ behind.before);
              splits =
                  whole
                  ∙ ap (◌++◌ b) (here ∙ ap (◌++◌ separator) behind.splits)
                  ∙ sym (append_assoc b (separator ++ behind.before) (separator ++ at));
              last = behind.last;
            },
          )
    ]

contains-has_prefix : (t needle : Bytes) → has_prefix t needle ≡ true → contains t needle ≡ true
unfolding contains strstr
contains-has_prefix [] needle h = ground arith
contains-has_prefix (x ∷ t) needle h = ground arith

has_prefix-append_self : (p r : Bytes) → has_prefix (p ++ r) p ≡ true
unfolding has_prefix
has_prefix-append_self [] r = ground arith
has_prefix-append_self (x ∷ p) r = ground (arith, has_prefix-append_self p r)

pub contains-append : (b needle r : Bytes) → contains (b ++ (needle ++ r)) needle ≡ true
unfolding contains strstr
contains-append [] needle r =
    contains-has_prefix (needle ++ r) needle (has_prefix-append_self needle r)
contains-append (x ∷ b) needle r = ground (arith, contains-append b needle r)

-- Two separators with none behind them are the same one.
IsBehindLast-unique :
    (a b x y : Bytes)
    → a ++ (separator ++ x) ≡ b ++ (separator ++ y)
    → contains x separator ≡ false
    → contains y separator ≡ false
    → x ≡ y
IsBehindLast-unique [] [] x y e h k = cc
IsBehindLast-unique [] (c ∷ []) x y e h k = cc
IsBehindLast-unique [] (c ∷ d ∷ b) x y e h k = ground (arith, contains-append b separator y)
IsBehindLast-unique (c ∷ []) [] x y e h k = cc
IsBehindLast-unique (c ∷ d ∷ a) [] x y e h k = ground (arith, contains-append a separator x)
IsBehindLast-unique (c ∷ a) (d ∷ b) x y e h k = IsBehindLast-unique a b x y (cc) h k

pub strstr-of_contains :
    (text needle : Bytes)
    → contains text needle ≡ true
    → (b : Bytes) × (f : Bytes) × (strstr text needle ≡ some (b, f))
unfolding contains
strstr-of_contains text needle h = elim (Option-cases (strstr text needle)) [
  | inl gone ↦ absurd (ground arith)
  | inr (p, e) ↦ (p.0, p.1, e)
]

-- With the fuel that `parse_nm_output`'s loop is given, it finds exactly what stands behind the
-- last separator of the line.
pub find_separator_last :
    (file at : Bytes)
    → contains at separator ≡ false
    → find_separator (suc (length (file ++ (separator ++ at)))) (file ++ (separator ++ at)) none
      ≡ some at
find_separator_last file at h =
    let text = file ++ (separator ++ at) in
    let (b, f, e) = strstr-of_contains text separator (contains-append file separator at) in
    let (at', found, behind) =
      find_separator-some (suc (length text)) text none b f (omega arith) e in
    found
    ∙ ap some (IsBehindLast-unique behind.before file at' at (sym behind.splits) behind.last h)

-- Without a separator the loop finds none.
pub find_separator_absent :
    (line : Bytes)
    → contains line separator ≡ false
    → find_separator (suc (length line)) line none ≡ none
unfolding contains
find_separator_absent line h = elim (Option-cases (strstr line separator)) [
  | inl gone ↦ find_separator-none (suc (length line)) line none gone
  | inr (p, e) ↦ absurd (ground arith)
]

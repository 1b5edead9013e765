-- ===== src/Tests/Windows.antt =====
-- The Windows branches on a table with room for two more descriptors.
mod DefFile
mod Validator
mod Link
use hermetic_llvm.Bytes.{Bytes, codes}
use hermetic_llvm.Windows.{bind, Host, Crt, IsCrt}
use hermetic_llvm.Prelude.{
  ℕ, suc, ◌≡◌, refl, sym, ◌∙◌, inl, inr, Bool, true, false, Option, none, some, arith, ltb, ◌==◌,
  if◌then◌else◌, Option-cases, length, List, ◌∷◌, [],
}

-- A descriptor is copied to 7, then to 8, where they are closed.
abbrev free_descriptor : (ℕ → Option ℕ) → Option ℕ
free_descriptor t = elim (t 7) [
  | none ↦ some 7
  | some file ↦ elim (t 8) [ none ↦ some 8 | some other ↦ none ]
]

abbrev dup_to : (ℕ → Option ℕ) → ℕ → Option ℕ → Option ℕ × (ℕ → Option ℕ)
dup_to t fd none = (none, t)
dup_to t fd (some n) = (some n, bind t n (t fd))

abbrev dup_free : (ℕ → Option ℕ) → ℕ → Option ℕ × (ℕ → Option ℕ)
dup_free t fd = dup_to t fd (free_descriptor t)

abbrev dup2_open : (ℕ → Option ℕ) → ℕ → ℕ → Bool × (ℕ → Option ℕ)
dup2_open t from to = elim (t from) [
  | none ↦ (false, t)
  | some file ↦ (true, bind t to (some file))
]

abbrev pub two_more : Crt
two_more = record {
  State = ℕ → Option ℕ;
  table = λ t. t;
  dup = dup_free;
  dup2 = dup2_open;
  close = λ t fd. bind t fd none;
}

free_descriptor-fresh : (t : ℕ → Option ℕ) (n : ℕ) → free_descriptor t ≡ some n → t n ≡ none
free_descriptor-fresh t n e = elim (Option-cases (t 7)) [
  | inl seven ↦ ground arith
  | inr (file, seven) ↦ ground arith
]

dup_to_lem : (t : ℕ → Option ℕ) (fd : ℕ) (found : Option ℕ) → (dup_to t fd found).0 ≡ found
dup_to_lem t fd none = refl
dup_to_lem t fd (some n) = refl

dup_to-bind :
    (t : ℕ → Option ℕ) (fd n m : ℕ) (found : Option ℕ)
    → (dup_to t fd found).0 ≡ some n
    → (dup_to t fd found).1 m ≡ bind t n (t fd) m
dup_to-bind t fd n m none e = cc
dup_to-bind t fd n m (some k) e = ground arith

dup_to_same :
    (t : ℕ → Option ℕ) (fd m : ℕ) (found : Option ℕ)
    → (dup_to t fd found).0 ≡ none
    → (dup_to t fd found).1 m ≡ t m
dup_to_same t fd m none e = refl
dup_to_same t fd m (some k) e = cc

pub two_more-IsCrt : IsCrt two_more
two_more-IsCrt = record {
  dup-fresh = λ t fd n e. free_descriptor-fresh t n (sym (dup_to_lem t fd (free_descriptor t)) ∙ e);
  dup-bind = λ t fd n m e. dup_to-bind t fd n m (free_descriptor t) e;
  dup-same = λ t fd m e. dup_to_same t fd m (free_descriptor t) e;
  dup2-bind = λ t from to m e. ground arith;
  dup2-same = λ t from to m e. ground arith;
  close-bind = λ t fd m. refl;
}

-- The standard streams, and two files that are open.
abbrev pub four_open : ℕ → Option ℕ
four_open m =
    if m == 0
    then some 10
    else if m == 1
    then some 11
    else if m == 3
    then some 13
    else if m == 4
    then some 14
    else none

-- Text of more than eight bytes cannot be converted here.
abbrev pub short_host : Host
short_host = record {
  wide_length = λ value. if ltb 8 (length value) then 0 else suc (length value);
  to_wide = λ value. some value;
  spawns = λ args input output. some 42;
  waits = λ child. some 0;
  runs = λ args input output. some 3;
}

abbrev pub nm_command : List Bytes
nm_command = codes "nm" ∷ codes "a.o" ∷ []

-- An argument that cannot be converted.
abbrev pub bad_command : List Bytes
bad_command = codes "nm" ∷ codes "too long to convert" ∷ []

-- ===== src/DefFile/StringSet/Order.antt =====
-- Strictly ascending lists of byte strings, and what an element's index says in them.
use hermetic_llvm.Prelude.{
  ℕ, zero, suc, ◌<◌, Bool, true, false, ◌||◌, List, [], ◌∷◌, ◌≡◌, refl, arith, some, length,
  get_elem?, All, inl, inr, Bool-cases,
}
use hermetic_llvm.Bytes.{Bytes, str_eq, str_lt, str_eq_iff}

abbrev pub IsSorted : List Bytes → Type 0
IsSorted [] = Unit
IsSorted (x ∷ xs) = All (λ y. str_lt x y ≡ true) xs × IsSorted xs

-- Whether a list holds a string: the membership that the sorted arrays stand for.
unfoldable pub elem : Bytes → List Bytes → Bool
elem v [] = false
elem v (x ∷ xs) = str_eq x v || elem v xs

pub All-get_elem? :
    (P : Bytes → Type 0) (xs : List Bytes) (i : ℕ) (x : Bytes)
    → All P xs
    → get_elem? xs i ≡ some x
    → P x
All-get_elem? P [] i x h e = absurd (ground arith)
All-get_elem? P (y ∷ xs) zero x h e = subst_head e h.0
  where
    subst_head : some y ≡ some x → P y → P x
    subst_head e p = hermetic_llvm.Prelude.subst P (cc) p
All-get_elem? P (y ∷ xs) (suc i) x h e = All-get_elem? P xs i x h.1 e

pub get_elem?-lt :
    (xs : List Bytes) (i j : ℕ) (a b : Bytes)
    → IsSorted xs
    → get_elem? xs i ≡ some a
    → get_elem? xs j ≡ some b
    → i < j
    → str_lt a b ≡ true
get_elem?-lt [] i j a b s p q h = absurd (ground arith)
get_elem?-lt (x ∷ xs) i zero a b s p q h = absurd (omega arith)
get_elem?-lt (x ∷ xs) zero (suc j) a b s p q h =
    ground (arith, All-get_elem? (λ y. str_lt x y ≡ true) xs j b s.0 q)
get_elem?-lt (x ∷ xs) (suc i) (suc j) a b s p q h = get_elem?-lt xs i j a b s.1 p q (omega arith)

pub elem-get_elem? :
    (v : Bytes) (xs : List Bytes) (i : ℕ) → get_elem? xs i ≡ some v → elem v xs ≡ true
unfolding elem
elem-get_elem? v [] i e = absurd (ground arith)
elem-get_elem? v (x ∷ xs) zero e = ground (arith, str_eq_iff x v)
elem-get_elem? v (x ∷ xs) (suc i) e = ground (arith, elem-get_elem? v xs i e)

pub index_of_elem :
    (v : Bytes) (xs : List Bytes) → elem v xs ≡ true → (i : ℕ) × (get_elem? xs i ≡ some v)
unfolding elem
index_of_elem v [] e = absurd (ground arith)
index_of_elem v (x ∷ xs) e = elim (Bool-cases (str_eq x v)) [
  | inl same ↦ (0, ground (arith, str_eq_iff x v))
  | inr other ↦ let (i, h) = index_of_elem v xs (ground arith) in (suc i, h)
]

pub get_elem?-some :
    (xs : List Bytes) (i : ℕ) → i < length xs → (x : Bytes) × (get_elem? xs i ≡ some x)
get_elem?-some [] i h = absurd (omega arith)
get_elem?-some (x ∷ xs) zero h = (x, refl)
get_elem?-some (x ∷ xs) (suc i) h = get_elem?-some xs i (omega arith)

pub get_elem?-lt_length :
    (xs : List Bytes) (i : ℕ) (x : Bytes) → get_elem? xs i ≡ some x → i < length xs
get_elem?-lt_length [] i x e = absurd (ground arith)
get_elem?-lt_length (y ∷ xs) zero x e = omega arith
get_elem?-lt_length (y ∷ xs) (suc i) x e = omega (arith, get_elem?-lt_length xs i x e)

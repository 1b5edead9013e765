-- ===== src/Bytes/Compare.antt =====
-- `strcmp` as an order on byte strings: the sign of its result is an `Ordering`.
use Prim.Native.Nat.{compare, Ordering}
use hermetic_llvm.Prelude.{Bool, true, false, [], ◌∷◌, ◌≡◌, ◌↔◌, refl, arith}
use hermetic_llvm.Bytes.Ctype.{Bytes}

unfoldable pub strcmp : Bytes → Bytes → Ordering
strcmp [] [] = Ordering.eq
strcmp [] (_ ∷ _) = Ordering.lt
strcmp (_ ∷ _) [] = Ordering.gt
strcmp (x ∷ a) (y ∷ b) = elim (compare x y) [
  | Ordering.lt ↦ Ordering.lt
  | Ordering.gt ↦ Ordering.gt
  | Ordering.eq ↦ strcmp a b
]

abbrev pub is_eq : Ordering → Bool
is_eq Ordering.eq = true
is_eq Ordering.lt = false
is_eq Ordering.gt = false

abbrev pub is_lt : Ordering → Bool
is_lt Ordering.lt = true
is_lt Ordering.eq = false
is_lt Ordering.gt = false

-- `strcmp(a, b) == 0` and `strcmp(a, b) < 0`.
abbrev pub str_eq : Bytes → Bytes → Bool
str_eq a b = is_eq (strcmp a b)

abbrev pub str_lt : Bytes → Bytes → Bool
str_lt a b = is_lt (strcmp a b)

pub strcmp_refl : (a : Bytes) → strcmp a a ≡ Ordering.eq
unfolding strcmp
strcmp_refl [] = refl
strcmp_refl (x ∷ a) = ground (arith, strcmp_refl a)

pub strcmp-eq : (a b : Bytes) → strcmp a b ≡ Ordering.eq → a ≡ b
unfolding strcmp
strcmp-eq [] [] h = refl
strcmp-eq (x ∷ a) (y ∷ b) h = ground (arith, strcmp-eq a b)
strcmp-eq _ _ h = ground arith

pub str_eq_iff : (a b : Bytes) → (str_eq a b ≡ true) ↔ (a ≡ b)
str_eq_iff a b = ground (arith, strcmp-eq a b, strcmp_refl a)

pub str_lt_trans : (a b c : Bytes) → str_lt a b ≡ true → str_lt b c ≡ true → str_lt a c ≡ true
unfolding strcmp
str_lt_trans [] (y ∷ b) (z ∷ c) p q = refl
str_lt_trans (x ∷ a) (y ∷ b) (z ∷ c) p q = ground (arith, str_lt_trans a b c)
str_lt_trans _ _ _ p q = ground arith

pub str_lt_irrefl : (a : Bytes) → str_lt a a ≡ false
str_lt_irrefl a = ground (arith, strcmp_refl a)

-- The signs of `strcmp(a, b)` and `strcmp(b, a)` are opposite.
pub strcmp-swap : (a b : Bytes) → strcmp a b ≡ Ordering.gt → strcmp b a ≡ Ordering.lt
unfolding strcmp
strcmp-swap [] [] h = ground arith
strcmp-swap (x ∷ a) (y ∷ b) h = ground (arith, strcmp-swap a b)
strcmp-swap _ _ h = ground arith

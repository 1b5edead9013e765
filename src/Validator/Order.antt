-- ===== src/Validator/Order.antt =====
-- `compare_symbol_entries` is the order of the symbols as byte strings.
use hermetic_llvm.Bytes.{strcmp, Bytes, str_eq, strcmp-eq, strcmp_refl}
use hermetic_llvm.Validator.{compare_symbol_entries, memcmp, SymbolEntry, same_symbol}
use Prim.Native.Nat.{Ordering}
use hermetic_llvm.Prelude.{
  ℕ, zero, suc, ◌≡◌, refl, sym, [], ◌∷◌, arith, ltb, ◌==◌, if◌then◌else◌, length,
}

memcmp-strcmp :
    (a b : Bytes) (n : ℕ)
    → n ≡ (if ltb (length a) (length b) then length a else length b)
    → strcmp a b ≡ elim (memcmp n a b) as (λ _. Ordering) [
      | Ordering.lt ↦ Ordering.lt
      | Ordering.gt ↦ Ordering.gt
      | Ordering.eq ↦
          if ltb (length a) (length b)
          then Ordering.lt
          else if length a == length b
          then Ordering.eq
          else Ordering.gt
    ]
unfolding memcmp strcmp
memcmp-strcmp [] [] n e = ground arith
memcmp-strcmp [] (y ∷ b) n e = ground arith
memcmp-strcmp (x ∷ a) [] n e = ground arith
memcmp-strcmp (x ∷ a) (y ∷ b) zero e = absurd (ground arith)
memcmp-strcmp (x ∷ a) (y ∷ b) (suc n) e = ground (arith, memcmp-strcmp a b n)

-- Comparing the common length first and then the lengths is `strcmp` of the two symbols.
pub compare_symbol_entries-strcmp :
    (a b : SymbolEntry) → compare_symbol_entries a b ≡ strcmp a.symbol b.symbol
unfolding compare_symbol_entries
compare_symbol_entries-strcmp a b = sym (memcmp-strcmp a.symbol b.symbol _ refl)

memcmp-all : (a b : Bytes) → length a ≡ length b → memcmp (length a) a b ≡ strcmp a b
unfolding memcmp strcmp
memcmp-all [] [] e = refl
memcmp-all [] (y ∷ b) e = absurd (omega arith)
memcmp-all (x ∷ a) [] e = absurd (omega arith)
memcmp-all (x ∷ a) (y ∷ b) e = ground (arith, memcmp-all a b)

-- The test for a duplicate is equality of the symbols.
pub same_symbol_iff : (e f : SymbolEntry) → same_symbol e f ≡ str_eq e.symbol f.symbol
same_symbol_iff e f =
    ground (arith, memcmp-all e.symbol f.symbol, strcmp-eq e.symbol f.symbol, strcmp_refl e.symbol)

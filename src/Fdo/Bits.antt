-- ===== src/Fdo/Bits.antt =====
-- The operations on binary digits as arithmetic.
use Prim.Native.Nat.{
  bit_and, bit_or, bit_xor, digits, differ, min, max, bit_and-bitwise, bit_or-bitwise,
  bit_xor-bitwise,
}
use native.Mathlib.Nat.{pow-suc, le_refl}
use hermetic_llvm.Prelude.{ℕ, zero, suc, ◌+◌, ◌*◌, ◌/◌, ◌%◌, ◌^◌, ◌≤◌, ◌<◌, ◌≡◌, refl, ap, arith}

power_twice : (q k : ℕ) → q * 2 ^ suc k ≡ 2 * (q * 2 ^ k)
power_twice q k = omega (arith, ap (λ (p : ℕ). q * p) (pow-suc 2 k))

-- Digits that are apart: those of a multiple of a power of two, and those below it.
digits-apart :
    (n k a q r : ℕ) → a ≡ q * 2 ^ k → r < 2 ^ k → a ≤ n → digits (λ b. b) max n a r ≡ a + r
digits-apart zero k zero q r e low h = omega arith
digits-apart zero k (suc a) q r e low h = absurd (omega arith)
digits-apart (suc n) k zero q r e low h = omega arith
digits-apart (suc n) zero (suc a) q r e low h = omega (
  arith,
  digits-apart n 0 (suc a / 2) (suc a / 2) (r / 2) (omega arith) (omega arith) (omega arith),
)
digits-apart (suc n) (suc k) (suc a) q r e low h = omega (
  arith,
  power_twice q k,
  pow-suc 2 k,
  digits-apart n k (suc a / 2) q (r / 2) (omega (arith, power_twice q k))
      (omega (arith, pow-suc 2 k)) (omega arith),
)

-- `|` of fields that are apart is their sum.
pub bit_or-apart : (k q r : ℕ) → r < 2 ^ k → bit_or (q * 2 ^ k) r ≡ q * 2 ^ k + r
bit_or-apart k q r low =
    simp bit_or-bitwise (digits-apart (q * 2 ^ k) k (q * 2 ^ k) q r refl low (le_refl _))

-- The low digits of a number.
digits-low :
    (n k a mask q r : ℕ)
    → a ≡ q * 2 ^ k + r
    → r < 2 ^ k
    → suc mask ≡ 2 ^ k
    → a ≤ n
    → digits (λ b. 0) min n a mask ≡ r
digits-low zero k zero mask q r e low m h = omega arith
digits-low zero k (suc a) mask q r e low m h = absurd (omega arith)
digits-low (suc n) k zero mask q r e low m h = omega arith
digits-low (suc n) zero (suc a) mask q r e low m h = omega (
  arith,
  digits-low n 0 (suc a / 2) (mask / 2) (suc a / 2) (r / 2) (omega arith) (omega arith)
      (omega arith) (omega arith),
)
digits-low (suc n) (suc k) (suc a) mask q r e low m h = omega (
  arith,
  power_twice q k,
  pow-suc 2 k,
  digits-low n k (suc a / 2) (mask / 2) q (r / 2) (omega (arith, power_twice q k))
      (omega (arith, pow-suc 2 k)) (omega (arith, pow-suc 2 k)) (omega arith),
)

-- `& 31` is the remainder by 32.
pub bit_and-31 : (a : ℕ) → bit_and a 31 ≡ a % 32
bit_and-31 a =
    simp bit_and-bitwise
      (digits-low a 5 a 31 (a / 32) (a % 32) (omega arith) (omega arith) refl (le_refl _))

differ-lt : (x y : ℕ) → x < 2 → y < 2 → differ x y < 2
differ-lt zero y p q = q
differ-lt (suc x) zero p q = p
differ-lt (suc zero) (suc y) p q = omega arith
differ-lt (suc (suc x)) (suc y) p q = absurd (omega arith)

digits-lt : (n k a b : ℕ) → a < 2 ^ k → b < 2 ^ k → digits (λ c. c) differ n a b < 2 ^ k
digits-lt zero k a b p q = q
digits-lt (suc n) k zero b p q = q
digits-lt (suc n) zero (suc a) b p q = absurd (omega arith)
digits-lt (suc n) (suc k) (suc a) b p q = omega (
  arith,
  pow-suc 2 k,
  differ-lt (suc a % 2) (b % 2) (omega arith) (omega arith),
  digits-lt n k (suc a / 2) (b / 2) (omega (arith, pow-suc 2 k)) (omega (arith, pow-suc 2 k)),
)

pub bit_xor-lt : (k a b : ℕ) → a < 2 ^ k → b < 2 ^ k → bit_xor a b < 2 ^ k
bit_xor-lt k a b p q = simp bit_xor-bitwise (digits-lt a k a b p q)

-- ===== src/Fdo/Rotate.antt =====
-- `rotate_left` of toolchain/bootstrap/stage3/fdo_freestanding.c as arithmetic.
use hermetic_llvm.Fdo.Bits.{bit_or-apart, bit_and-31}
use hermetic_llvm.Fdo.{fdo_value, rotate_left}
use native.Mathlib.Nat.{
  mul-le-mul_right, div-lt_iff_lt-mul, mul-add-mod_self_right, mod-eq_of_lt, one-le-pow, pow-suc,
  mul-lt-mul_of_pos_right, div-eq_of_lt-le,
}
use Prim.Native.Nat.{bit_or}
use hermetic_llvm.Prelude.{
  ℕ, zero, suc, ◌+◌, ◌-◌, ◌*◌, ◌/◌, ◌%◌, ◌^◌, ◌≤◌, ◌<◌, ◌≡◌, sym, ap, ◌∙◌, inl, inr, arith, ◌==◌,
  ==_iff, Bool-cases,
}

power_of : (j k : ℕ) → j ≡ k → 2 ^ j ≡ 2 ^ k
power_of j k e = ap (λ (n : ℕ). 2 ^ n) e

power_sum : (j k : ℕ) → 2 ^ j * 2 ^ k ≡ 2 ^ (j + k)
power_sum zero k = omega (arith, power_of k (0 + k) (omega arith))
power_sum (suc j) k =
    let twice : 2 ^ suc j * 2 ^ k ≡ 2 * (2 ^ j * 2 ^ k) =
      omega (arith, ap (λ (p : ℕ). p * 2 ^ k) (pow-suc 2 j)) in
    omega (
      arith,
      twice,
      power_sum j k,
      pow-suc 2 (j + k),
      power_of (suc j + k) (suc (j + k)) (omega arith),
    )

powers : (k : ℕ) → k ≤ 32 → 2 ^ k * 2 ^ (32 - k) ≡ fdo_value
powers k h = power_sum k (32 - k) ∙ power_of (k + (32 - k)) 32 (omega arith)

-- A product loses what is above the modulus.
wrapped : (q r high low : ℕ) → 0 < high → r < low → (q * low + r) * high % (high * low) ≡ r * high
wrapped q r high low positive h =
    let split : (q * low + r) * high ≡ q * (high * low) + r * high = omega arith in
    let less : r * high < high * low = omega (arith, mul-lt-mul_of_pos_right h positive) in
    ap (λ (n : ℕ). n % (high * low)) split
    ∙ mul-add-mod_self_right q (high * low) (r * high)
    ∙ mod-eq_of_lt less

quotient : (q r low : ℕ) → r < low → (q * low + r) / low ≡ q
quotient q r low h = div-eq_of_lt-le low (omega arith) (omega arith)

-- The digits of a value above and below a place, exchanged.
abbrev pub exchanged : ℕ → ℕ → ℕ
exchanged value k = value % 2 ^ (32 - k) * 2 ^ k + value / 2 ^ (32 - k)

-- In a value, the digits above and below a place.
parts : (value k : ℕ) → value ≡ value / 2 ^ (32 - k) * 2 ^ (32 - k) + value % 2 ^ (32 - k)
parts value k = omega arith

rotate_left_at :
    (value k : ℕ)
    → value < fdo_value
    → k ≤ 32
    → bit_or (value * 2 ^ k % fdo_value) (value / 2 ^ (32 - k)) ≡ exchanged value k
rotate_left_at value k h small =
    let low = 2 ^ (32 - k) in
    let positive : 0 < low = one-le-pow (32 - k) 2 (omega arith) in
    let below : value % low < low = omega arith in
    let above : value / low < 2 ^ k =
      (div-lt_iff_lt-mul positive).1 (omega (arith, powers k small)) in
    let moved : value * 2 ^ k % fdo_value ≡ value % low * 2 ^ k =
      ap (λ (n : ℕ). value * 2 ^ k % n) (sym (powers k small))
      ∙ ap (λ (n : ℕ). n * 2 ^ k % (2 ^ k * low)) (parts value k)
      ∙ wrapped (value / low) (value % low) (2 ^ k) low (one-le-pow k 2 (omega arith)) below in
    ap (λ (n : ℕ). bit_or n (value / low)) moved ∙ bit_or-apart k (value % low) (value / low) above

rotate_left-exchanged :
    (value amount : ℕ)
    → value < fdo_value
    → rotate_left value amount ≡ exchanged value (amount % 32)
unfolding rotate_left
rotate_left-exchanged value amount h =
    let k = amount % 32 in
    elim (Bool-cases (k == 0)) [
      | inl z ↦
          let none_left : k ≡ 0 = (==_iff k 0).0 z in
          let whole : exchanged value 0 ≡ value = omega arith in
          rw (rotate_left, bit_and-31 amount, z) (sym whole ∙ ap (exchanged value) (sym none_left))
      | inr some_left ↦
          rw (rotate_left, bit_and-31 amount, some_left) (rotate_left_at value k h (omega arith))
    ]

exchanged-lt : (value k : ℕ) → value < fdo_value → k ≤ 32 → exchanged value k < fdo_value
exchanged-lt value k h small =
    let low = 2 ^ (32 - k) in
    let positive : 0 < low = one-le-pow (32 - k) 2 (omega arith) in
    let below : suc (value % low) ≤ low = omega arith in
    let above : value / low < 2 ^ k =
      (div-lt_iff_lt-mul positive).1 (omega (arith, powers k small)) in
    omega (arith, mul-le-mul_right (2 ^ k) below, powers k small)

-- The exchange at the other place.
exchanged_back :
    (value k : ℕ) → value < fdo_value → k ≤ 32 → exchanged (exchanged value k) (32 - k) ≡ value
exchanged_back value k h small =
    let low = 2 ^ (32 - k) in
    let high = 2 ^ k in
    let positive : 0 < low = one-le-pow (32 - k) 2 (omega arith) in
    let above : value / low < high =
      (div-lt_iff_lt-mul positive).1 (omega (arith, powers k small)) in
    let remainder : exchanged value k % high ≡ value / low =
      mul-add-mod_self_right (value % low) high (value / low) ∙ mod-eq_of_lt above in
    let other : exchanged value k / high ≡ value % low =
      quotient (value % low) (value / low) high above in
    let place : 2 ^ (32 - (32 - k)) ≡ high = power_of (32 - (32 - k)) k (omega arith) in
    rw (place, remainder, other) (sym (parts value k))

exchanged_rest :
    (value k : ℕ)
    → value < fdo_value
    → k < 32
    → exchanged (exchanged value k) ((32 - k) % 32) ≡ value
exchanged_rest value zero h small =
    let whole : exchanged value 0 ≡ value = omega arith in
    ap (λ (v : ℕ). exchanged v 0) whole ∙ whole
exchanged_rest value (suc k) h small =
    let place : (32 - suc k) % 32 ≡ 32 - suc k = omega arith in
    ap (exchanged (exchanged value (suc k))) place ∙ exchanged_back value (suc k) h (omega arith)

-- A rotation to the left of a 32-bit value by an amount, taken modulo 32, moves the digits below the
-- place to the top and puts the digits above it behind them; what it gives is a 32-bit value, and the
-- rotation by what is missing to 32 takes it back.
pub rotate_left-back :
    (value amount : ℕ)
    → value < fdo_value
    → (rotate_left value amount
        ≡ value % 2 ^ (32 - amount % 32) * 2 ^ (amount % 32) + value / 2 ^ (32 - amount % 32))
      × (rotate_left value amount < fdo_value)
      × (rotate_left (rotate_left value amount) (32 - amount % 32) ≡ value)
rotate_left-back value amount h =
    let k = amount % 32 in
    let first = rotate_left-exchanged value amount h in
    let less : exchanged value k < fdo_value = exchanged-lt value k h (omega arith) in
    let second = rotate_left-exchanged (exchanged value k) (32 - k) less in
    (
      first,
      rw first less,
      ap (λ (v : ℕ). rotate_left v (32 - k)) first
          ∙ second
          ∙ exchanged_rest value k h (omega arith),
    )

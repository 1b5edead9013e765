-- ===== src/Fdo/Bounds.antt =====
-- The loop of toolchain/bootstrap/stage3/fdo_freestanding.c and the bounds of its values.
use hermetic_llvm.Fdo.Rotate.{rotate_left-back}
use hermetic_llvm.Fdo.Bits.{bit_xor-lt}
use hermetic_llvm.Fdo.{fdo_loop, fdo_round, llvm_fdo_freestanding, fdo_value}
use Prim.Native.Nat.{bit_and, bit_xor}
use hermetic_llvm.Prelude.{
  ℕ, zero, suc, ◌+◌, ◌*◌, ◌%◌, ◌<◌, ◌≡◌, refl, inl, inr, some, arith, ◌==◌, Bool-cases,
}

fdo_round-lt :
    (value index : ℕ) → value < fdo_value → index < fdo_value → fdo_round value index < fdo_value
unfolding fdo_round
fdo_round-lt value index h i =
    let other = bit_xor value (index * 0x9e3779b9 % fdo_value) in
    let less : other < fdo_value =
      bit_xor-lt 32 value (index * 0x9e3779b9 % fdo_value) h (omega arith) in
    elim (Bool-cases (bit_and value index == 0)) [
      | inl apart ↦ rw (fdo_round, apart) (omega arith)
      | inr common ↦ rw (fdo_round, common) (rotate_left-back other index less).1
    ]

-- The fuel is enough for the rounds that are left, and the test behind them.
fdo_loop-lt :
    (left index value : ℕ)
    → index + left ≡ 17
    → value < fdo_value
    → (r : ℕ) × (fdo_loop (suc left) index value ≡ some r) × (r < fdo_value)
unfolding fdo_loop
fdo_loop-lt zero index value e h = (value, ground arith, h)
fdo_loop-lt (suc left) index value e h =
    let next : (index + 1) % fdo_value + left ≡ 17 = omega arith in
    let (r, found, less) =
      fdo_loop-lt left ((index + 1) % fdo_value) (fdo_round value index) next
        (fdo_round-lt value index h (omega arith)) in
    (r, ground (arith, found), less)

-- On a value of 32 bits, the loop comes to its end, and the result is a value of 32 bits.
llvm_fdo_freestanding-lt :
    (value : ℕ)
    → value < fdo_value
    → (r : ℕ) × (llvm_fdo_freestanding value ≡ some r) × (r < fdo_value)
unfolding llvm_fdo_freestanding
llvm_fdo_freestanding-lt value h = fdo_loop-lt 16 1 value refl h

-- ===== src/Fdo.antt =====
-- toolchain/bootstrap/stage3/fdo_freestanding.c, on the values of `unsigned int`, which wrap around.
pub mod Bits
pub mod Rotate
pub mod Bounds
use Prim.Native.Nat.{bit_and, bit_or, bit_xor}
use hermetic_llvm.Prelude.{
  ℕ, zero, suc, ◌+◌, ◌-◌, ◌*◌, ◌/◌, ◌%◌, ◌^◌, not, Option, none, some, ◌==◌, if◌then◌else◌,
}

-- The values of `fdo_value`.
abbrev pub fdo_value : ℕ
fdo_value = 2 ^ 32

unfoldable pub rotate_left : ℕ → ℕ → ℕ
rotate_left value amount =
    let low = bit_and amount 31 in
    if low == 0 then value else bit_or (value * 2 ^ low % fdo_value) (value / 2 ^ (32 - low))

-- The body of the loop.
unfoldable pub fdo_round : ℕ → ℕ → ℕ
fdo_round value index =
    if not (bit_and value index == 0)
    then rotate_left (bit_xor value (index * 0x9e3779b9 % fdo_value)) index
    else (value + rotate_left index (bit_and value 15)) % fdo_value

-- The loop, on fuel for the tests of its condition.
unfoldable pub fdo_loop : ℕ → ℕ → ℕ → Option ℕ
fdo_loop zero index value = none
fdo_loop (suc fuel) index value =
    let rest = fdo_loop fuel ((index + 1) % fdo_value) (fdo_round value index) in
    if not (index == 17) then rest else some value

unfoldable pub llvm_fdo_freestanding : ℕ → Option ℕ
llvm_fdo_freestanding value = fdo_loop 17 1 value

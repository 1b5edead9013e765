-- ===== src/Tests/Fdo.antt =====
-- Runs of the freestanding program.
use hermetic_llvm.Fdo.Rotate.{rotate_left-back}
use hermetic_llvm.Fdo.{rotate_left, llvm_fdo_freestanding, fdo_value, fdo_loop, fdo_round}
use hermetic_llvm.Prelude.{◌<◌, ◌≡◌, ◌+◌, ◌*◌, ◌/◌, ◌%◌, ◌^◌, refl, some, arith}

rotates : rotate_left 0x80000001 4 ≡ 0x18
unfolding rotate_left
rotates = refl

rotates_none : rotate_left 5 32 ≡ 5
unfolding rotate_left
rotates_none = refl

runs : llvm_fdo_freestanding 12345 ≡ some 2297094802
unfolding llvm_fdo_freestanding fdo_loop fdo_round rotate_left
runs = refl

rotate_left-back_example :
    (rotate_left 0x80000001 36 ≡ 0x80000001 % 2 ^ 28 * 2 ^ 4 + 0x80000001 / 2 ^ 28)
    × (rotate_left 0x80000001 36 < fdo_value)
    × (rotate_left (rotate_left 0x80000001 36) 28 ≡ 0x80000001)
rotate_left-back_example = rotate_left-back 0x80000001 36 (omega arith)

-- ===== src/Memory/Strings.antt =====
-- Arrays that were allocated for a C string.
use hermetic_llvm.Memory.Laws.{write_at-length}
use hermetic_llvm.Bytes.{c_string, Bytes}
use hermetic_llvm.Memory.{write_at, Growth, succeeded, out_of_memory, running}
use hermetic_llvm.Prelude.{
  ℕ, ◌+◌, ◌<◌, ◌≡◌, refl, ap, ◌∙◌, [], ◌∷◌, ◌++◌, append_assoc, arith, length, drop, length-append,
  All,
}

-- An array that was allocated is filled by a string and its zero.
abbrev pub HoldsString : Growth Bytes → Bytes → Type 0
HoldsString (succeeded array) value = (c_string array ≡ value) × (length array ≡ length value + 1)
HoldsString out_of_memory value = Unit
HoldsString running value = ⊥

abbrev pub NoZero : Bytes → Type 0
NoZero value = All (λ (c : ℕ). 0 < c) value

c_string_zero : (value rest : Bytes) → NoZero value → c_string (value ++ 0 ∷ rest) ≡ value
unfolding c_string
c_string_zero [] rest h = refl
c_string_zero (c ∷ value) rest (p, h) = ground (arith, c_string_zero value rest h)

pub written-HoldsString :
    (array value : Bytes)
    → NoZero value
    → length array ≡ length value + 1
    → HoldsString (succeeded (write_at array 0 (value ++ 0 ∷ []))) value
unfolding write_at
written-HoldsString array value h size =
    let behind = drop (0 + length (value ++ 0 ∷ [])) array in
    let long = length-append value (0 ∷ []) in
    (
      ap c_string (append_assoc value (0 ∷ []) behind) ∙ c_string_zero value behind h,
      write_at-length array 0 (value ++ 0 ∷ []) (omega (arith, long)) ∙ size,
    )

-- ===== src/DefFile/Allocation.antt =====
-- `xrealloc` and `xstrdup` of tools/def_file_generator/def_file_generator.c.
use hermetic_llvm.Bytes.{Bytes}
use hermetic_llvm.Memory.{Realloc, Growth, out_of_memory, IsRealloc, succeeded, write_at, running}
use hermetic_llvm.Memory.Strings.{HoldsString, NoZero, written-HoldsString}
use hermetic_llvm.Prelude.{
  ℕ, ◌+◌, ◌*◌, ◌≡◌, ap, ◌∙◌, inl, inr, false, none, some, List, [], ◌∷◌, ◌++◌, arith, ◌==◌,
  if◌then◌else◌, Option-cases, length,
}

-- The program ends with status 2 where there is no memory.
unfoldable pub xrealloc {ℓ} : {A : Type ℓ} → Realloc A → List A → ℕ → Growth (List A)
xrealloc realloc pointer size = elim (realloc pointer (if size == 0 then 1 else size)) [
  | none ↦ out_of_memory
  | some result ↦ succeeded result
]

-- `memcpy` of the string with its zero. NULL is the empty array.
unfoldable pub xstrdup : Realloc ℕ → Bytes → Growth Bytes
xstrdup realloc value = elim (xrealloc realloc [] (length value + 1)) [
  | succeeded result ↦ succeeded (write_at result 0 (value ++ 0 ∷ []))
  | out_of_memory ↦ out_of_memory
  | running ↦ running
]

-- Where there is memory, a copy of a string holds the string, within its array.
xstrdup-HoldsString :
    (realloc : Realloc ℕ) (value : Bytes)
    → IsRealloc 1 realloc
    → NoZero value
    → HoldsString (xstrdup realloc value) value
unfolding xstrdup xrealloc
xstrdup-HoldsString realloc value law h =
    let size = length value + 1 in
    let positive : (size == 0) ≡ false = ground arith in
    elim (Option-cases (realloc [] size)) [
      | inl none_left ↦ rw (xstrdup, xrealloc, positive, none_left) tt
      | inr (array, got) ↦
          let once : size * 1 ≡ size = omega arith in
          let (long, kept) = law [] array size (omega arith) (ap (realloc []) once ∙ got) in
          rw (xstrdup, xrealloc, positive, got) (written-HoldsString array value h long)
    ]

-- ===== src/Vfs/Allocation.antt =====
-- `ci_xmalloc`, `ci_xrealloc`, `ci_xstrdup` and `ci_set_error` of
-- tools/case_insensitive_vfs/filesystem.c.
use hermetic_llvm.Memory.Strings.{HoldsString, NoZero, written-HoldsString}
use hermetic_llvm.Memory.{Growth, Realloc, write_at, out_of_memory, succeeded, running}
use hermetic_llvm.Bytes.{Bytes, codes}
use hermetic_llvm.Prelude.{
  ℕ, ◌+◌, ◌-◌, ◌≡◌, inl, inr, false, Option, none, some, List, [], ◌∷◌, ◌++◌, arith, ◌==◌,
  if◌then◌else◌, Option-cases, length, take, take_whole,
}

-- `malloc`: a new array of a size, where there is memory for it.
abbrev pub Malloc : Type 0
Malloc = ℕ → Option Bytes

abbrev pub IsMalloc : Malloc → Type 0
IsMalloc malloc = (size : ℕ) (array : Bytes) → malloc size ≡ some array → length array ≡ size

-- The program ends with status 2 where there is no memory.
unfoldable pub ci_xmalloc : Malloc → ℕ → Growth Bytes
ci_xmalloc malloc size = elim (malloc (if size == 0 then 1 else size)) [
  | none ↦ out_of_memory
  | some pointer ↦ succeeded pointer
]

unfoldable pub ci_xrealloc {ℓ} : {A : Type ℓ} → Realloc A → List A → ℕ → Growth (List A)
ci_xrealloc realloc pointer size = elim (realloc pointer (if size == 0 then 1 else size)) [
  | none ↦ out_of_memory
  | some result ↦ succeeded result
]

-- `memcpy` of the string with its zero.
unfoldable pub ci_xstrdup : Malloc → Bytes → Growth Bytes
ci_xstrdup malloc value =
    let size = length value + 1 in
    elim (ci_xmalloc malloc size) [
      | succeeded result ↦ succeeded (write_at result 0 (value ++ 0 ∷ []))
      | out_of_memory ↦ out_of_memory
      | running ↦ running
    ]

-- `vsnprintf` into an array of a size: it cuts the text off where it does not fit with its zero.
abbrev pub print_into : Bytes → ℕ → Bytes → Bytes
print_into array size text =
    if size == 0 then array else write_at array 0 (take (size - 1) text ++ 0 ∷ [])

-- What `*error` is afterwards; what it was is freed. `formatted` is what the format and its
-- arguments make, or `none` where `vsnprintf` fails.
unfoldable pub ci_set_error : Malloc → Option Bytes → Growth Bytes
ci_set_error malloc none = ci_xstrdup malloc (codes "failed to format error")
ci_set_error malloc (some text) = elim (ci_xmalloc malloc (length text + 1)) [
  | succeeded error ↦ succeeded (print_into error (length text + 1) text)
  | out_of_memory ↦ out_of_memory
  | running ↦ running
]

-- Where there is memory, a copy of a string holds the string, within its array.
ci_xstrdup-HoldsString :
    (malloc : Malloc) (value : Bytes)
    → IsMalloc malloc
    → NoZero value
    → HoldsString (ci_xstrdup malloc value) value
unfolding ci_xstrdup ci_xmalloc
ci_xstrdup-HoldsString malloc value law h =
    let positive : (length value + 1 == 0) ≡ false = ground arith in
    elim (Option-cases (malloc (length value + 1))) [
      | inl none_left ↦ rw (ci_xstrdup, ci_xmalloc, positive, none_left) tt
      | inr (array, got) ↦
          rw (ci_xstrdup, ci_xmalloc, positive, got)
            (written-HoldsString array value h (law (length value + 1) array got))
    ]

printed-HoldsString :
    (array text : Bytes)
    → NoZero text
    → length array ≡ length text + 1
    → HoldsString (succeeded (print_into array (length text + 1) text)) text
printed-HoldsString array text h size =
    let positive : (length text + 1 == 0) ≡ false = ground arith in
    let whole = take_whole (length text + 1 - 1) text (omega arith) in
    rw (positive, whole) (written-HoldsString array text h size)

-- Where there is memory, the error is filled by what was formatted.
ci_set_error-HoldsString :
    (malloc : Malloc) (text : Bytes)
    → IsMalloc malloc
    → NoZero text
    → HoldsString (ci_set_error malloc (some text)) text
unfolding ci_set_error ci_xmalloc
ci_set_error-HoldsString malloc text law h =
    let positive : (length text + 1 == 0) ≡ false = ground arith in
    elim (Option-cases (malloc (length text + 1))) [
      | inl none_left ↦ rw (ci_set_error, ci_xmalloc, positive, none_left) tt
      | inr (array, got) ↦
          rw (ci_set_error, ci_xmalloc, positive, got)
            (printed-HoldsString array text h (law (length text + 1) array got))
    ]

-- ===== src/Memory.antt =====
-- Arrays in memory that grow: what the C tools share in their growing buffers. `realloc` is a
-- parameter, and a size in bytes wraps around as `size_t` does.
pub mod Laws
pub mod Buffer
pub mod Strings
use hermetic_llvm.Prelude.{
  ℕ, zero, suc, ◌+◌, ◌*◌, ◌%◌, ◌^◌, ◌≤◌, ◌≡◌, Option, none, some, List, ◌++◌, ltb, if◌then◌else◌,
  length, take, drop,
}

-- The values of `size_t`.
abbrev pub size_t : ℕ
size_t = 2 ^ 64

-- `realloc`: an array, the size in bytes, and the new array where there is memory for it.
abbrev pub Realloc {ℓ} : Type ℓ → Type ℓ
Realloc A = List A → ℕ → Option (List A)

-- What `realloc` promises for elements of a size: the new array is as long as the size in bytes
-- allows, and begins with what the old one held where it grows.
abbrev pub IsRealloc {ℓ} : {A : Type ℓ} → ℕ → Realloc A → Type ℓ
IsRealloc {A = A} element realloc =
    (array larger : List A) (count : ℕ)
    → length array ≤ count
    → realloc array (count * element) ≡ some larger
    → (length larger ≡ count) × (take (length array) larger ≡ array)

-- How a growing operation ends: with a value, by `exit(2)` of `xrealloc`, or not within the fuel.
pub data Growth {ℓ} (A : Type ℓ) : Type ℓ where
  succeeded : A → Growth A
  out_of_memory running : Growth A

-- `memcpy` to a place of an array.
unfoldable pub write_at {ℓ} : {A : Type ℓ} → List A → ℕ → List A → List A
write_at array offset values = take offset array ++ (values ++ drop (offset + length values) array)

-- `while (cap < need) cap *= 2;`.
unfoldable pub double_until : ℕ → ℕ → ℕ → Option ℕ
double_until zero cap need = none
double_until (suc fuel) cap need =
    let more = double_until fuel (cap * 2 % size_t) need in if ltb cap need then more else some cap

-- ===== src/Memory/Buffer.antt =====
-- The growing buffer that the validator and the overlay's program have in common.
pub mod Laws
use hermetic_llvm.Bytes.{Bytes}
use hermetic_llvm.Memory.{
  Realloc, Growth, size_t, write_at, out_of_memory, double_until, running, succeeded,
}
use hermetic_llvm.Prelude.{ℕ, ◌+◌, ◌%◌, none, some, List, [], ◌∷◌, ◌==◌, if◌then◌else◌, length}

-- A growing buffer, with the whole array, also what stands behind `len`.
pub record Buffer : Type 0 where
  pub bytes : Bytes
  pub len : ℕ
  pub cap : ℕ

-- A call of `realloc` that exits without memory, and what is done with the new array.
unfoldable pub xrealloc {ℓ} : {A B : Type ℓ} → Realloc A → List A → ℕ → (List A → B) → Growth B
xrealloc realloc array size next = elim (realloc array size) [
  | none ↦ out_of_memory
  | some larger ↦ succeeded (next larger)
]

-- A buffer with another array and capacity.
abbrev pub moved : Buffer → ℕ → Bytes → Buffer
moved buf size larger = record { bytes = larger; len = buf.len; cap = size }

-- The loop that doubles the capacity, from 4096 on, and the new array.
unfoldable pub widened : Realloc ℕ → Buffer → ℕ → Growth Buffer
widened realloc buf need = elim (double_until 64 (if buf.cap == 0 then 4096 else buf.cap) need) [
  | none ↦ running
  | some size ↦ xrealloc realloc buf.bytes size (moved buf size)
]

-- The bytes and the zero behind them.
unfoldable pub append_bytes : Bytes → Buffer → Buffer
append_bytes value buf =
    let len = (buf.len + length value) % size_t in
    record {
      bytes = write_at (write_at buf.bytes buf.len value) len (0 ∷ []);
      len = len;
      cap = buf.cap;
    }

-- ===== src/Validator/Buffers/Laws.antt =====
-- A growing buffer stays well formed, and holds what was appended to it.
use hermetic_llvm.Memory.Buffer.{Buffer, append_bytes}
use hermetic_llvm.Memory.Buffer.Laws.{
  IsBuffer, HoldsAfter, HasRoom, widened-HasRoom, append_bytes-IsBuffer,
}
use hermetic_llvm.Bytes.{Bytes}
use hermetic_llvm.Memory.{Realloc, size_t, IsRealloc, out_of_memory, succeeded}
use hermetic_llvm.Validator.Buffers.{buffer_reserve, buffer_append}
use hermetic_llvm.Prelude.{
  ℕ, ◌+◌, ◌%◌, ◌≤◌, ◌≡◌, refl, ◌⊎◌, inl, inr, arith, leb, Bool-cases, length,
}

buffer_reserve-HasRoom :
    (realloc : Realloc ℕ) (buf : Buffer) (extra : ℕ)
    → IsRealloc 1 realloc
    → length buf.bytes ≡ buf.cap
    → buf.len ≤ buf.cap
    → buf.len + extra + 1 ≤ 9223372036854775808
    → (buffer_reserve realloc buf extra ≡ out_of_memory)
      ⊎ ((larger : Buffer) × (buffer_reserve realloc buf extra ≡ succeeded larger)
          × HasRoom buf extra larger)
unfolding buffer_reserve
buffer_reserve-HasRoom realloc buf extra law size inside small =
    let need = buf.len + extra + 1 in
    let exact : need % size_t ≡ need = omega arith in
    elim (Bool-cases (leb need buf.cap)) [
      | inl fits ↦ inr (buf, ground arith, (size, refl, ground arith, refl))
      | inr tight ↦
          rw (buffer_reserve, exact, tight)
            (widened-HasRoom realloc buf extra law size inside (ground arith) small)
    ]

-- `buffer_append` on a well-formed buffer, where what it will hold and its zero fit in 2 ^ 63 bytes,
-- ends: there is no memory, or the buffer is well formed again and holds the appended bytes behind
-- those it held.
pub buffer_append-contents :
    (realloc : Realloc ℕ) (buf : Buffer) (value : Bytes)
    → IsRealloc 1 realloc
    → IsBuffer buf
    → buf.len + length value + 1 ≤ 9223372036854775808
    → (buffer_append realloc buf value ≡ out_of_memory)
      ⊎ ((larger : Buffer) × (buffer_append realloc buf value ≡ succeeded larger)
          × HoldsAfter buf value larger)
unfolding buffer_append
buffer_append-contents realloc buf value law (size, h) small =
    let inside : buf.len ≤ buf.cap = elim h [
      | inl new ↦ omega (arith, new.0)
      | inr used ↦ omega (arith, used.0)
    ] in
    elim (buffer_reserve-HasRoom realloc buf (length value) law size inside small) [
      | inl none_left ↦ inl (rw (buffer_append, none_left) refl)
      | inr (larger, e, room) ↦
          let (well, holds) = append_bytes-IsBuffer value buf larger room small in
          inr (append_bytes value larger, rw (buffer_append, e) refl, (well, holds))
    ]

-- ===== src/Vfs/TextBuffer/Laws.antt =====
-- The text buffer holds the texts that were appended, one behind the other.
use hermetic_llvm.Memory.{Realloc, IsRealloc, out_of_memory, succeeded, size_t}
use hermetic_llvm.Bytes.{Bytes}
use hermetic_llvm.Memory.Buffer.{Buffer, append_bytes}
use hermetic_llvm.Memory.Buffer.Laws.{
  IsBuffer, contents, HoldsAfter, HasRoom, widened-HasRoom, append_bytes-IsBuffer, IsBuffer-le,
  length-contents,
}
use hermetic_llvm.Vfs.TextBuffer.{buffer_reserve, buffer_append, append_texts}
use hermetic_llvm.Prelude.{
  ℕ, ◌+◌, ◌%◌, ◌≤◌, ◌≡◌, refl, sym, ap, ◌∙◌, ◌⊎◌, inl, inr, List, [], ◌∷◌, ◌++◌, append-nil,
  append_assoc, arith, leb, Bool-cases, length, length-append,
}

-- The texts as one.
abbrev pub joined : List Bytes → Bytes
joined [] = []
joined (text ∷ texts) = text ++ joined texts

pub buffer_reserve-HasRoom :
    (realloc : Realloc ℕ) (buffer : Buffer) (extra : ℕ)
    → IsRealloc 1 realloc
    → IsBuffer buffer
    → buffer.len + extra + 1 ≤ 9223372036854775808
    → (buffer_reserve realloc buffer extra ≡ out_of_memory)
      ⊎ ((larger : Buffer) × (buffer_reserve realloc buffer extra ≡ succeeded larger)
          × HasRoom buffer extra larger)
unfolding buffer_reserve
buffer_reserve-HasRoom realloc buffer extra law well small =
    let needed = buffer.len + extra + 1 in
    let exact : needed % size_t ≡ needed = omega arith in
    let inside = IsBuffer-le buffer well in
    elim (Bool-cases (leb needed buffer.cap)) [
      | inl fits ↦ inr (buffer, ground arith, (well.0, refl, ground arith, refl))
      | inr tight ↦
          rw (buffer_reserve, exact, tight)
            (widened-HasRoom realloc buffer extra law well.0 inside (ground arith) small)
    ]

buffer_append-HoldsAfter :
    (realloc : Realloc ℕ) (buffer : Buffer) (value : Bytes)
    → IsRealloc 1 realloc
    → IsBuffer buffer
    → buffer.len + length value + 1 ≤ 9223372036854775808
    → (buffer_append realloc buffer value ≡ out_of_memory)
      ⊎ ((larger : Buffer) × (buffer_append realloc buffer value ≡ succeeded larger)
          × HoldsAfter buffer value larger)
unfolding buffer_append
buffer_append-HoldsAfter realloc buffer value law well small =
    elim (buffer_reserve-HasRoom realloc buffer (length value) law well small) [
      | inl none_left ↦ inl (rw (buffer_append, none_left) refl)
      | inr (larger, e, room) ↦
          let (good, holds) = append_bytes-IsBuffer value buffer larger room small in
          inr (append_bytes value larger, rw (buffer_append, e) refl, (good, holds))
    ]

-- Appending texts to a well-formed buffer, where all that it will hold and its zero fit in 2 ^ 63
-- bytes, ends: there is no memory, or the buffer is well formed and holds the texts one behind the
-- other behind what it held.
pub append_texts-joined :
    (realloc : Realloc ℕ) (texts : List Bytes) (buffer : Buffer)
    → IsRealloc 1 realloc
    → IsBuffer buffer
    → buffer.len + length (joined texts) + 1 ≤ 9223372036854775808
    → (append_texts realloc texts buffer ≡ out_of_memory)
      ⊎ ((larger : Buffer) × (append_texts realloc texts buffer ≡ succeeded larger)
          × HoldsAfter buffer (joined texts) larger)
unfolding append_texts
append_texts-joined realloc [] buffer law well small =
    inr (buffer, refl, (well, sym (append-nil (contents buffer))))
append_texts-joined realloc (text ∷ texts) buffer law well small =
    let whole = length-append text (joined texts) in
    elim (buffer_append-HoldsAfter realloc buffer text law well (omega (arith, whole))) [
      | inl none_left ↦ inl (rw (append_texts, none_left) refl)
      | inr (larger, e, (good, holds)) ↦
          let grown_by : larger.len ≡ buffer.len + length text = omega (
            arith,
            length-contents larger good,
            length-contents buffer well,
            length-append (contents buffer) text,
            ap length holds,
          ) in
          elim (append_texts-joined realloc texts larger law good (omega (arith, whole))) [
            | inl none_left ↦ inl (rw (append_texts, e, none_left) refl)
            | inr (last, e', (good', holds')) ↦ inr (
              last,
              rw (append_texts, e, e') refl,
              (
                good',
                holds'
                    ∙ ap (λ l. l ++ joined texts) holds
                    ∙ append_assoc (contents buffer) text (joined texts),
              ),
            )
          ]
    ]

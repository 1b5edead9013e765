-- ===== src/Validator/Buffers/Reading.antt =====
-- The loop of `read_file` reads a whole stream.
use hermetic_llvm.Memory.Buffer.Laws.{length-contents, IsBuffer, contents, HoldsAfter}
use hermetic_llvm.Memory.Buffer.{Buffer}
use hermetic_llvm.Bytes.{Bytes}
use hermetic_llvm.Validator.Buffers.Laws.{buffer_append-contents}
use hermetic_llvm.Memory.{Realloc, IsRealloc, out_of_memory, succeeded}
use hermetic_llvm.Validator.Buffers.{read_loop, read_file, append_chunk, Source}
use hermetic_llvm.Prelude.{
  ℕ, zero, suc, ◌+◌, ◌≤◌, ◌<◌, ◌≡◌, refl, sym, ap, ◌∙◌, ◌⊎◌, inl, inr, Bool, not, [], ◌∷◌, ◌++◌,
  append-nil, append_assoc, arith, ◌==◌, Bool-cases, length, take, drop, length-append, length-drop,
  take_short, length-take_le, take-drop,
}

append_chunk-HoldsAfter :
    (realloc : Realloc ℕ) (buf : Buffer) (chunk : Bytes)
    → IsRealloc 1 realloc
    → IsBuffer buf
    → buf.len + length chunk + 1 ≤ 9223372036854775808
    → (append_chunk realloc buf chunk ≡ out_of_memory)
      ⊎ ((larger : Buffer) × (append_chunk realloc buf chunk ≡ succeeded larger)
          × HoldsAfter buf chunk larger)
unfolding append_chunk
append_chunk-HoldsAfter realloc buf [] law well small =
    inr (buf, refl, (well, sym (append-nil (contents buf))))
append_chunk-HoldsAfter realloc buf (c ∷ chunk) law well small =
    buffer_append-contents realloc buf (c ∷ chunk) law well small

read_loop-HoldsAfter :
    (fuel size : ℕ) (realloc : Realloc ℕ) (breaks : Bool) (rest : Bytes) (buf : Buffer)
    → IsRealloc 1 realloc
    → 0 < size
    → length rest < fuel
    → IsBuffer buf
    → buf.len + length rest + 1 ≤ 9223372036854775808
    → (read_loop fuel size realloc breaks rest buf ≡ out_of_memory)
      ⊎ ((larger : Buffer) × (read_loop fuel size realloc breaks rest buf
            ≡ succeeded (larger, not breaks))
          × HoldsAfter buf rest larger)
unfolding read_loop
read_loop-HoldsAfter zero size realloc breaks rest buf law positive enough well small =
    absurd (omega arith)
read_loop-HoldsAfter (suc fuel) size realloc breaks rest buf law positive enough well small =
    let chunk = take size rest in
    let whole = length-drop size rest in
    elim (append_chunk-HoldsAfter realloc buf chunk law well (omega (arith, whole))) [
      | inl none_left ↦ inl (rw (read_loop, none_left) refl)
      | inr (larger, e, (well', holds)) ↦ elim (Bool-cases (length chunk == size)) [
        | inr short ↦
            let last : chunk ≡ rest =
              take_short size rest (ground (arith, length-take_le size rest)) in
            inr (
              larger,
              rw (read_loop, e, short) refl,
              (well', holds ∙ ap (λ l. contents buf ++ l) last),
            )
        | inl full ↦
            let grown_by : larger.len ≡ buf.len + length chunk = omega (
              arith,
              length-contents larger well',
              length-contents buf well,
              length-append (contents buf) chunk,
              ap length holds,
            ) in
            let size_of : length chunk ≡ size = ground arith in
            let again =
              read_loop-HoldsAfter fuel size realloc breaks (drop size rest) larger law positive
                (omega (arith, whole)) well' (omega (arith, whole)) in
            elim again [
              | inl none_left ↦ inl (rw (read_loop, e, full, none_left) refl)
              | inr (last, e', (well'', holds')) ↦ inr (
                last,
                rw (read_loop, e, full, e') refl,
                (
                  well'',
                  holds'
                      ∙ ap (λ l. l ++ drop size rest) holds
                      ∙ append_assoc (contents buf) chunk (drop size rest)
                      ∙ ap (λ l. contents buf ++ l) (take-drop size rest),
                ),
              )
            ]
      ]
    ]

-- `read_file` into a well-formed buffer, where what it will hold and its zero fit in 2 ^ 63 bytes,
-- ends: there is no memory, or the buffer is well formed and holds all of the stream that could be
-- read behind what it held, and 1 is returned exactly where no read has failed.
pub read_file_lem :
    (size : ℕ) (realloc : Realloc ℕ) (file : Source) (buf : Buffer)
    → IsRealloc 1 realloc
    → 0 < size
    → IsBuffer buf
    → buf.len + length file.text + 1 ≤ 9223372036854775808
    → (read_file size realloc file buf ≡ out_of_memory)
      ⊎ ((larger : Buffer) × (read_file size realloc file buf ≡ succeeded (larger, not file.breaks))
          × HoldsAfter buf file.text larger)
unfolding read_file
read_file_lem size realloc file buf law positive well small =
    read_loop-HoldsAfter (suc (length file.text)) size realloc file.breaks file.text buf law
      positive (omega arith) well small

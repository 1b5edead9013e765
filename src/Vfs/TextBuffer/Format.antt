-- ===== src/Vfs/TextBuffer/Format.antt =====
-- `buffer_append_format` of tools/case_insensitive_vfs/vfs.c. What a format and its arguments make is a
-- parameter: a text, or `none` where `vsnprintf` fails.
use hermetic_llvm.Vfs.TextBuffer.Laws.{buffer_reserve-HasRoom}
use hermetic_llvm.Memory.Buffer.Laws.{IsBuffer, HoldsAfter, append_bytes-IsBuffer}
use hermetic_llvm.Memory.{
  Realloc, Growth, write_at, IsRealloc, size_t, succeeded, out_of_memory, running,
}
use hermetic_llvm.Memory.Buffer.{append_bytes, Buffer}
use hermetic_llvm.Bytes.{Bytes}
use hermetic_llvm.Vfs.TextBuffer.{buffer_reserve}
use hermetic_llvm.Prelude.{
  ℕ, ◌+◌, ◌-◌, ◌%◌, ◌≤◌, ◌≡◌, refl, ap, ◌⊎◌, inl, inr, false, Option, none, some, [], ◌∷◌, arith,
  ◌==◌, if◌then◌else◌, length, take, take_whole,
}

-- `vsnprintf` into what is left of the array: it cuts the text off where it does not fit with its
-- zero. The length grows by that of the whole text.
unfoldable pub print_at : Bytes → Buffer → Buffer
print_at text buffer =
    let room = buffer.cap - buffer.len in
    let fitting = take (room - 1) text in
    let printed = write_at buffer.bytes buffer.len fitting in
    record {
      bytes =
          if room == 0
          then buffer.bytes
          else write_at printed (buffer.len + length fitting) (0 ∷ []);
      len = (buffer.len + length text) % size_t;
      cap = buffer.cap;
    }

-- `none` is the end of the program with status 2.
unfoldable pub buffer_append_format : Realloc ℕ → Buffer → Option Bytes → Option (Growth Buffer)
buffer_append_format realloc buffer none = none
buffer_append_format realloc buffer (some text) =
    elim (buffer_reserve realloc buffer (length text)) [
      | succeeded larger ↦ some (succeeded (print_at text larger))
      | out_of_memory ↦ some out_of_memory
      | running ↦ some running
    ]

-- With room, nothing is cut off.
print_at-append_bytes :
    (text : Bytes) (buffer : Buffer)
    → buffer.len + length text + 1 ≤ buffer.cap
    → buffer.len + length text + 1 ≤ 9223372036854775808
    → print_at text buffer ≡ append_bytes text buffer
unfolding print_at append_bytes
print_at-append_bytes text buffer room small =
    let exact : (buffer.len + length text) % size_t ≡ buffer.len + length text = omega arith in
    let whole = take_whole (buffer.cap - buffer.len - 1) text (omega arith) in
    let left : (buffer.cap - buffer.len == 0) ≡ false = ground arith in
    rw (print_at, append_bytes, exact, whole, left) refl

-- Where the text and its zero fit in 2 ^ 63 bytes with what the buffer holds, the call ends: there is
-- no memory, or the buffer is well formed and holds the whole text behind what it held.
buffer_append_format-HoldsAfter :
    (realloc : Realloc ℕ) (buffer : Buffer) (text : Bytes)
    → IsRealloc 1 realloc
    → IsBuffer buffer
    → buffer.len + length text + 1 ≤ 9223372036854775808
    → (buffer_append_format realloc buffer (some text) ≡ some out_of_memory)
      ⊎ ((larger : Buffer) × (buffer_append_format realloc buffer (some text)
            ≡ some (succeeded larger))
          × HoldsAfter buffer text larger)
unfolding buffer_append_format
buffer_append_format-HoldsAfter realloc buffer text law well small =
    elim (buffer_reserve-HasRoom realloc buffer (length text) law well small) [
      | inl none_left ↦ inl (rw (buffer_append_format, none_left) refl)
      | inr (larger, e, room) ↦
          let holds = append_bytes-IsBuffer text buffer larger room small in
          let (size, same, enough, kept) = room in
          inr (
            append_bytes text larger,
            rw (buffer_append_format, e)
                (ap (λ (b : Buffer). some (succeeded b))
                  (print_at-append_bytes text larger (omega arith) (omega arith))),
            holds,
          )
    ]

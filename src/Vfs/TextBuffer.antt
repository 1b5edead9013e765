-- ===== src/Vfs/TextBuffer.antt =====
-- The text buffer of tools/case_insensitive_vfs/vfs.c, in which the overlay grows.
pub mod Laws
pub mod Format
use hermetic_llvm.Bytes.{Bytes}
use hermetic_llvm.Memory.{Realloc, Growth, succeeded, size_t, out_of_memory, running}
use hermetic_llvm.Memory.Buffer.{Buffer, widened, append_bytes}
use hermetic_llvm.Prelude.{ℕ, ◌+◌, ◌%◌, List, [], ◌∷◌, leb, if◌then◌else◌, length}

unfoldable pub buffer_reserve : Realloc ℕ → Buffer → ℕ → Growth Buffer
buffer_reserve realloc buffer extra =
    let needed = (buffer.len + extra + 1) % size_t in
    if leb needed buffer.cap then succeeded buffer else widened realloc buffer needed

-- `buffer_append_n`, and `buffer_append` with `strlen` of its text.
unfoldable pub buffer_append : Realloc ℕ → Buffer → Bytes → Growth Buffer
buffer_append realloc buffer value = elim (buffer_reserve realloc buffer (length value)) [
  | succeeded larger ↦ succeeded (append_bytes value larger)
  | out_of_memory ↦ out_of_memory
  | running ↦ running
]

-- The calls that append one text after another.
unfoldable pub append_texts : Realloc ℕ → List Bytes → Buffer → Growth Buffer
append_texts realloc [] buffer = succeeded buffer
append_texts realloc (text ∷ texts) buffer = elim (buffer_append realloc buffer text) [
  | succeeded larger ↦ append_texts realloc texts larger
  | out_of_memory ↦ out_of_memory
  | running ↦ running
]

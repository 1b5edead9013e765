-- ===== src/Tests/TextBuffer.antt =====
-- Texts that are appended to the buffer of the overlay.
use hermetic_llvm.Bytes.{Bytes, codes}
use hermetic_llvm.Memory.Buffer.{Buffer, append_bytes, widened, xrealloc}
use hermetic_llvm.Memory.Buffer.Laws.{HoldsAfter}
use hermetic_llvm.Memory.{succeeded, out_of_memory, double_until, write_at}
use hermetic_llvm.Vfs.TextBuffer.{buffer_append, buffer_reserve, append_texts}
use hermetic_llvm.Vfs.TextBuffer.Laws.{append_texts-joined}
use hermetic_llvm.Tests.Buffers.{for_bytes, for_bytes-IsRealloc, used, resize, fill}
use hermetic_llvm.Prelude.{◌≡◌, refl, ◌⊎◌, inr, List, [], ◌∷◌, arith}

abbrev texts : List Bytes
texts = codes "cd" ∷ codes "e" ∷ []

appends :
    append_texts for_bytes texts used
    ≡ succeeded (record {
      bytes = b'a' ∷ b'b' ∷ b'c' ∷ b'd' ∷ b'e' ∷ 0 ∷ b'?' ∷ b'?' ∷ [];
      len = 5;
      cap = 8;
    })
unfolding append_texts buffer_append buffer_reserve widened double_until xrealloc append_bytes
    write_at resize fill
appends = refl

append_texts-joined_example :
    (append_texts for_bytes texts used ≡ out_of_memory)
    ⊎ ((larger : Buffer) × (append_texts for_bytes texts used ≡ succeeded larger)
        × HoldsAfter used (codes "cde") larger)
append_texts-joined_example =
    append_texts-joined for_bytes texts used for_bytes-IsRealloc (refl, inr (omega arith, refl))
      (omega arith)

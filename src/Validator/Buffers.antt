-- ===== src/Validator/Buffers.antt =====
-- The growing buffers of tools/internal/static_library_validator.c, and what fills them.
pub mod Laws
pub mod Reading
pub mod Symbols
pub mod Copying
use hermetic_llvm.Memory.Buffer.{Buffer, xrealloc, append_bytes, widened}
use hermetic_llvm.Validator.{SymbolEntry}
use hermetic_llvm.Memory.{Realloc, size_t, Growth, write_at, running, out_of_memory, succeeded}
use hermetic_llvm.Bytes.{Bytes, is_empty}
use hermetic_llvm.Prelude.{
  ℕ, zero, suc, ◌+◌, ◌*◌, ◌%◌, Bool, false, not, Option, none, some, List, [], ◌∷◌, ◌++◌, leb, ◌==◌,
  if◌then◌else◌, length, take, drop,
}

-- `buffer_init`.
abbrev pub buffer_init : Buffer
buffer_init = record { bytes = []; len = 0; cap = 0 }

unfoldable pub buffer_reserve : Realloc ℕ → Buffer → ℕ → Growth Buffer
buffer_reserve realloc buf extra =
    let need = (buf.len + extra + 1) % size_t in
    if leb need buf.cap then succeeded buf else widened realloc buf need

unfoldable pub buffer_append : Realloc ℕ → Buffer → Bytes → Growth Buffer
buffer_append realloc buf value = elim (buffer_reserve realloc buf (length value)) [
  | succeeded larger ↦ succeeded (append_bytes value larger)
  | out_of_memory ↦ out_of_memory
  | running ↦ running
]

-- A stream that is read from its start: its text, and whether a read fails behind it.
pub record Source : Type 0 where
  pub text : Bytes
  pub breaks : Bool

-- The bytes of one `fread`, added where there are any.
unfoldable pub append_chunk : Realloc ℕ → Buffer → Bytes → Growth Buffer
append_chunk realloc buf chunk =
    if is_empty chunk then succeeded buf else buffer_append realloc buf chunk

-- The loop: the buffer, and the value that is returned.
unfoldable pub read_loop : ℕ → ℕ → Realloc ℕ → Bool → Bytes → Buffer → Growth (Buffer × Bool)
read_loop zero size realloc breaks rest buf = running
read_loop (suc fuel) size realloc breaks rest buf =
    let chunk = take size rest in
    elim (append_chunk realloc buf chunk) [
      | out_of_memory ↦ out_of_memory
      | running ↦ running
      | succeeded larger ↦
          if not (length chunk == size)
          then succeeded (larger, not breaks)
          else read_loop fuel size realloc breaks (drop size rest) larger
    ]

-- With a chunk of `size` bytes; the source's is `chunk_size`.
unfoldable pub read_file : ℕ → Realloc ℕ → Source → Buffer → Growth (Buffer × Bool)
read_file size realloc file buf =
    read_loop (suc (length file.text)) size realloc file.breaks file.text buf

abbrev pub chunk_size : ℕ
chunk_size = 4096

-- `copy_file` to a stream, of whose writes each may stop behind some bytes: what was written, and
-- the value that is returned. The loop from a chunk on.
unfoldable pub copy_rest : ℕ → ℕ → (ℕ → Option ℕ) → Bool → ℕ → Bytes → Bytes → Option (Bytes × Bool)
copy_rest zero size stops breaks index rest written = none
copy_rest (suc fuel) size stops breaks index rest written =
    let chunk = take size rest in
    let further =
      copy_rest fuel size stops breaks (suc index) (drop size rest) (written ++ chunk) in
    let read = if length chunk == size then further else some (written ++ chunk, not breaks) in
    if is_empty chunk
    then read
    else elim (stops index) [ none ↦ read | some n ↦ some (written ++ take n chunk, false) ]

unfoldable pub copy_file : ℕ → (ℕ → Option ℕ) → Source → Option (Bytes × Bool)
copy_file size stops from = copy_rest (suc (length from.text)) size stops from.breaks 0 from.text []

-- `struct symbol_list`: `entries` is the whole array.
pub record SymbolList : Type 0 where
  pub entries : List SymbolEntry
  pub len : ℕ
  pub cap : ℕ

-- `sizeof(struct symbol_entry)`, where pointers have 64 bits.
abbrev pub entry_size : ℕ
entry_size = 40

-- The list whose array holds one entry more.
abbrev pub stored : SymbolEntry → ℕ → ℕ → List SymbolEntry → SymbolList
stored entry len size larger = record {
  entries = write_at larger len (entry ∷ []);
  len = (len + 1) % size_t;
  cap = size;
}

unfoldable pub add_symbol : Realloc SymbolEntry → SymbolList → SymbolEntry → Growth SymbolList
add_symbol realloc list entry =
    if list.len == list.cap
    then (let size = if list.cap == 0 then 64 else list.cap * 2 % size_t in
        xrealloc realloc list.entries (size * entry_size % size_t) (stored entry list.len size))
    else succeeded (stored entry list.len list.cap list.entries)

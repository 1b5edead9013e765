-- ===== src/LinkWrapper/CopyFile.antt =====
-- `copy_file` of tools/internal/link_wrapper.c, on the files alone.
pub mod Laws
use hermetic_llvm.Bytes.{Bytes, str_eq, is_empty}
use hermetic_llvm.Prelude.{
  ℕ, zero, suc, ◌+◌, ◌*◌, Bool, true, false, not, ◌&&◌, ◌||◌, Option, none, some, [], ◌++◌, ltb,
  ◌==◌, if◌then◌else◌, length, take, drop,
}

-- What the system answers to the calls of one copy: whether the two files open, the source
-- closes and the destination is removed; behind how many bytes that reach the file closing the
-- destination fails, if it does; for the chunk with a number, after how many bytes `fread` fails, and after
-- how many `fwrite` does.
pub record Streams : Type 0 where
  pub opens_source : Bytes → Bool
  pub opens_destination : Bytes → Bool
  pub read_fails : ℕ → Option ℕ
  pub write_fails : ℕ → Option ℕ
  pub closes_destination : Option ℕ
  pub closes_source : Bool
  pub removes : Bytes → Bool

abbrev pub Files : Type 0
Files = Bytes → Option Bytes

unfoldable pub put : Files → Bytes → Option Bytes → Files
put files path content = λ p. if str_eq p path then content else files p

-- `fread` of a chunk: the bytes, and whether `ferror` holds then.
unfoldable pub read_chunk : ℕ → Option ℕ → Bytes → Bytes × Bool
read_chunk size none rest = (take size rest, false)
read_chunk size (some n) rest = (take n (take size rest), true)

-- One round of the loop: the bytes that are written, and the status where the loop ends.
unfoldable pub copy_chunk : ℕ → Streams → ℕ → Bytes → Bytes × Option ℕ
unfolding read_chunk
copy_chunk size s index rest =
    let (chunk, failed) = read_chunk size (s.read_fails index) rest in
    let ended : Option ℕ =
      if failed then some 1 else if ltb (length chunk) size then some 0 else none in
    if is_empty chunk
    then (chunk, ended)
    else elim (s.write_fails index) [ none ↦ (chunk, ended) | some n ↦ (take n chunk, some 1) ]

-- The loop from a chunk on: the text written so far grows, and the status is 0 or 1.
unfoldable pub copy_loop : ℕ → ℕ → Streams → ℕ → Bytes → Bytes → Option (Bytes × ℕ)
copy_loop zero size s index rest written = none
copy_loop (suc fuel) size s index rest written =
    let (chunk, ended) = copy_chunk size s index rest in
    elim ended [
      | some status ↦ some (written ++ chunk, status)
      | none ↦ copy_loop fuel size s (suc index) (drop size rest) (written ++ chunk)
    ]

-- `sizeof(buffer)`.
abbrev pub buffer_size : ℕ
buffer_size = 64 * 1024

-- What a written text is in the file once its stream is closed.
unfoldable pub closed_text : Streams → Bytes → Bytes
closed_text s written = elim s.closes_destination [ none ↦ written | some n ↦ take n written ]

-- Whether closing the destination fails.
abbrev pub is_lossy : Streams → Bool
is_lossy s = elim s.closes_destination [ none ↦ false | some _ ↦ true ]

-- The end of the copy: both streams are closed, and a failed destination is removed.
unfoldable pub close_both : Streams → Files → Bytes → Bytes → ℕ → ℕ × Files
close_both s opened destination_path written status =
    let files = put opened destination_path (some (closed_text s written)) in
    let closed = if status == 0 && is_lossy s then 1 else status in
    let final = if closed == 0 && not s.closes_source then 1 else closed in
    (
      final,
      if not (final == 0) && s.removes destination_path
          then put files destination_path none
          else files,
    )

-- The files that are read when the destination is already truncated.
unfoldable pub copy_file : ℕ → Streams → Bytes → Bytes → Files → Option (ℕ × Files)
copy_file size s source_path destination_path files = elim (files source_path) [
  | none ↦ some (1, files)
  | some _ ↦
      if not (s.opens_source source_path) || not (s.opens_destination destination_path)
      then some (1, files)
      else (let truncated = put files destination_path (some []) in
          elim (truncated source_path) [
            | none ↦ some (1, truncated)
            | some content ↦ elim (copy_loop (suc (length content)) size s 0 content []) [
              | none ↦ none
              | some (written, status) ↦
                  some (close_both s truncated destination_path written status)
            ]
          ])
]

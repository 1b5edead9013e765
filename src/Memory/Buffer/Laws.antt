-- ===== src/Memory/Buffer/Laws.antt =====
-- A growing buffer stays well formed, and holds what was appended to it.
use hermetic_llvm.Memory.Laws.{
  double_until-some, write_at-length, get_elem?-write_at, take-write_at_before, take-write_at,
}
use hermetic_llvm.Bytes.{Bytes}
use hermetic_llvm.Memory.Buffer.{xrealloc, widened, Buffer, append_bytes, moved}
use hermetic_llvm.Memory.{
  Realloc, double_until, IsRealloc, out_of_memory, size_t, write_at, succeeded,
}
use hermetic_llvm.Prelude.{
  ℕ, ◌+◌, ◌*◌, ◌%◌, ◌≤◌, ◌<◌, ◌≡◌, refl, sym, ap, subst, ◌∙◌, ◌⊎◌, inl, inr, some, [], ◌∷◌, ◌++◌,
  arith, ◌==◌, if◌then◌else◌, Option-cases, length, get_elem?, take, take-take, length-take,
}

-- A buffer of its capacity, which is new, or has a zero behind its bytes.
abbrev pub IsBuffer : Buffer → Type 0
IsBuffer buf =
    (length buf.bytes ≡ buf.cap)
    × (((buf.len ≡ 0) × (buf.cap ≡ 0))
        ⊎ ((buf.len < buf.cap) × (get_elem? buf.bytes buf.len ≡ some 0)))

-- The bytes that a buffer holds.
abbrev pub contents : Buffer → Bytes
contents buf = take buf.len buf.bytes

pub IsBuffer-le : (buffer : Buffer) → IsBuffer buffer → buffer.len ≤ buffer.cap
IsBuffer-le buffer (size, inl new) = omega (arith, new.0)
IsBuffer-le buffer (size, inr used) = omega (arith, used.0)

pub length-contents : (buffer : Buffer) → IsBuffer buffer → length (contents buffer) ≡ buffer.len
length-contents buffer well =
    length-take buffer.len buffer.bytes (omega (arith, IsBuffer-le buffer well, well.0))

-- How a buffer has grown by a text.
abbrev pub HoldsAfter : Buffer → Bytes → Buffer → Type 0
HoldsAfter buf text larger = IsBuffer larger × (contents larger ≡ contents buf ++ text)

-- A buffer with room for so many bytes and the zero, and the bytes of another one.
abbrev pub HasRoom : Buffer → ℕ → Buffer → Type 0
HasRoom buf extra larger =
    (length larger.bytes ≡ larger.cap)
    × (larger.len ≡ buf.len)
    × (buf.len + extra + 1 ≤ larger.cap)
    × (take buf.len larger.bytes ≡ contents buf)

realloc_keeps :
    (realloc : Realloc ℕ) (array larger : Bytes) (count : ℕ)
    → IsRealloc 1 realloc
    → length array ≤ count
    → realloc array count ≡ some larger
    → (length larger ≡ count) × (take (length array) larger ≡ array)
realloc_keeps realloc array larger count h k e =
    let same : count * 1 ≡ count = omega arith in
    h array larger count k (ap (realloc array) same ∙ e)

moved-HasRoom :
    (realloc : Realloc ℕ) (buf : Buffer) (extra wide : ℕ)
    → IsRealloc 1 realloc
    → length buf.bytes ≤ wide
    → buf.len ≤ length buf.bytes
    → buf.len + extra + 1 ≤ wide
    → (xrealloc realloc buf.bytes wide (moved buf wide) ≡ out_of_memory)
      ⊎ ((larger : Buffer) × (xrealloc realloc buf.bytes wide (moved buf wide) ≡ succeeded larger)
          × HasRoom buf extra larger)
unfolding xrealloc
moved-HasRoom realloc buf extra wide law wider inside enough =
    elim (Option-cases (realloc buf.bytes wide)) [
      | inl no_memory ↦ inl (rw (xrealloc, no_memory) refl)
      | inr (larger, got) ↦
          let (long, kept) = realloc_keeps realloc buf.bytes larger wide law wider got in
          inr (
            moved buf wide larger,
            rw (xrealloc, got) refl,
            (
              long,
              refl,
              enough,
              sym (take-take buf.len (length buf.bytes) larger inside) ∙ ap (take buf.len) kept,
            ),
          )
    ]

widened_at :
    (realloc : Realloc ℕ) (buf : Buffer) (need wide : ℕ)
    → double_until 64 (if buf.cap == 0 then 4096 else buf.cap) need ≡ some wide
    → widened realloc buf need ≡ xrealloc realloc buf.bytes wide (moved buf wide)
unfolding widened
widened_at realloc buf need wide e = rw (widened, e) refl

pub widened-HasRoom :
    (realloc : Realloc ℕ) (buf : Buffer) (extra : ℕ)
    → IsRealloc 1 realloc
    → length buf.bytes ≡ buf.cap
    → buf.len ≤ buf.cap
    → buf.cap < buf.len + extra + 1
    → buf.len + extra + 1 ≤ 9223372036854775808
    → (widened realloc buf (buf.len + extra + 1) ≡ out_of_memory)
      ⊎ ((larger : Buffer) × (widened realloc buf (buf.len + extra + 1) ≡ succeeded larger)
          × HasRoom buf extra larger)
widened-HasRoom realloc buf extra law size inside tight small =
    let need = buf.len + extra + 1 in
    let start = if buf.cap == 0 then 4096 else buf.cap in
    let (wide, e, enough, more) = double_until-some start need (ground arith) small in
    let same = widened_at realloc buf need wide e in
    subst
      (λ r.
        (r ≡ out_of_memory)
        ⊎ ((larger : Buffer) × (r ≡ succeeded larger) × HasRoom buf extra larger))
      (sym same) (moved-HasRoom realloc buf extra wide law (omega arith) (omega arith) enough)

pub append_bytes-IsBuffer :
    (value : Bytes) (buf larger : Buffer)
    → HasRoom buf (length value) larger
    → buf.len + length value + 1 ≤ 9223372036854775808
    → IsBuffer (append_bytes value larger)
      × (contents (append_bytes value larger) ≡ contents buf ++ value)
unfolding append_bytes
append_bytes-IsBuffer value buf larger (size, same, room, kept) small =
    let len = larger.len + length value in
    let exact : len % size_t ≡ len = omega arith in
    let written = write_at larger.bytes larger.len value in
    let long : length written ≡ length larger.bytes =
      write_at-length larger.bytes larger.len value (omega arith) in
    rw exact (
      (
        write_at-length written len (0 ∷ []) (omega arith) ∙ long ∙ size,
        inr (omega arith, get_elem?-write_at written len 0 (omega arith)),
      ),
      take-write_at_before written len (0 ∷ []) (omega arith)
          ∙ take-write_at larger.bytes larger.len value (omega arith)
          ∙ ap (λ n. take n larger.bytes ++ value) same
          ∙ ap (λ l. l ++ value) kept,
    )

-- ===== src/Tests/Buffers.antt =====
-- The growing arrays of the validator, with a `realloc` that always has memory.
use hermetic_llvm.Memory.Buffer.{Buffer, xrealloc, append_bytes, widened}
use hermetic_llvm.Memory.Buffer.Laws.{HoldsAfter}
use hermetic_llvm.Validator.Buffers.Reading.{read_file_lem}
use mathlib.Core.Option.{some-injective}
use hermetic_llvm.Validator.Buffers.Symbols.{IsSymbolList, entries_of, add_symbol_lem}
use hermetic_llvm.Bytes.{codes}
use hermetic_llvm.Validator.{SymbolEntry}
use hermetic_llvm.Validator.Buffers.{
  SymbolList, read_file, buffer_append, Source, copy_file, add_symbol, buffer_reserve, entry_size,
  read_loop, copy_rest, append_chunk,
}
use hermetic_llvm.Memory.{IsRealloc, Realloc, out_of_memory, double_until, succeeded, write_at}
use hermetic_llvm.Prelude.{
  ℕ, zero, suc, ◌*◌, ◌/◌, ◌≤◌, ◌≡◌, refl, sym, ap, ◌∙◌, ◌⊎◌, inr, true, false, none, some, List, [],
  ◌∷◌, arith, ◌==◌, if◌then◌else◌, length, take,
}

-- A list of a length that begins with another one.
unfoldable pub fill {ℓ} : {A : Type ℓ} → A → ℕ → List A → List A
fill x zero l = []
fill x (suc n) [] = x ∷ fill x n []
fill x (suc n) (y ∷ l) = y ∷ fill x n l

length-fill {ℓ} : {A : Type ℓ} (x : A) (n : ℕ) (l : List A) → length (fill x n l) ≡ n
unfolding fill
length-fill x zero l = refl
length-fill x (suc n) [] = ap suc (length-fill x n [])
length-fill x (suc n) (y ∷ l) = ap suc (length-fill x n l)

take-fill {ℓ} :
    {A : Type ℓ} (x : A) (n : ℕ) (l : List A) → length l ≤ n → take (length l) (fill x n l) ≡ l
unfolding fill
take-fill x n [] h = refl
take-fill x zero (y ∷ l) h = absurd (omega arith)
take-fill x (suc n) (y ∷ l) h = ap (◌∷◌ y) (take-fill x n l (omega arith))

unfoldable pub resize {ℓ} : {A : Type ℓ} → ℕ → A → Realloc A
resize element x array size = some (fill x (size / element) array)

resize-IsRealloc {ℓ} :
    {A : Type ℓ} (element : ℕ) (x : A)
    → ((count : ℕ) → count * element / element ≡ count)
    → IsRealloc element (resize element x)
unfolding resize
resize-IsRealloc element x exact array larger count h e =
    let same : fill x count array ≡ larger =
      ap (λ n. fill x n array) (sym (exact count))
      ∙ some-injective (fill x (count * element / element) array) larger e in
    (
      ap length (sym same) ∙ length-fill x count array,
      ap (take (length array)) (sym same) ∙ take-fill x count array h,
    )

abbrev pub for_bytes : Realloc ℕ
for_bytes = resize 1 b'?'

pub for_bytes-IsRealloc : IsRealloc 1 for_bytes
for_bytes-IsRealloc = resize-IsRealloc 1 b'?' (λ count. omega arith)

abbrev an_entry : SymbolEntry
an_entry = record { symbol = codes "f"; object = codes "a"; type = b'T' }

abbrev for_entries : Realloc SymbolEntry
for_entries = resize entry_size an_entry

for_entries-IsRealloc : IsRealloc entry_size for_entries
for_entries-IsRealloc = resize-IsRealloc entry_size an_entry (λ count. omega arith)

-- Two bytes, the zero, and one byte behind it.
abbrev pub used : Buffer
used = record { bytes = b'a' ∷ b'b' ∷ 0 ∷ b'x' ∷ []; len = 2; cap = 4 }

grows :
    buffer_append for_bytes used (codes "cd")
    ≡ succeeded (record {
      bytes = b'a' ∷ b'b' ∷ b'c' ∷ b'd' ∷ 0 ∷ b'?' ∷ b'?' ∷ b'?' ∷ [];
      len = 4;
      cap = 8;
    })
unfolding buffer_append buffer_reserve widened double_until xrealloc append_bytes write_at resize
    fill
grows = refl

abbrev file : Source
file = record { text = codes "cdefg"; breaks = false }

reads :
    read_file 2 for_bytes file used
    ≡ succeeded (
      record { bytes = b'a' ∷ b'b' ∷ b'c' ∷ b'd' ∷ b'e' ∷ b'f' ∷ b'g' ∷ 0 ∷ []; len = 7; cap = 8 },
      true,
    )
unfolding read_file read_loop append_chunk buffer_append buffer_reserve widened double_until
    xrealloc append_bytes write_at resize fill
reads = refl

read_file_lem_example :
    (read_file 2 for_bytes file used ≡ out_of_memory)
    ⊎ ((larger : Buffer) × (read_file 2 for_bytes file used ≡ succeeded (larger, true))
        × HoldsAfter used (codes "cdefg") larger)
read_file_lem_example =
    read_file_lem 2 for_bytes file used for_bytes-IsRealloc (omega arith)
      (refl, inr (omega arith, refl)) (omega arith)

-- The second write stops behind one byte.
copies_part : copy_file 2 (λ n. if n == 1 then some 1 else none) file ≡ some (codes "cde", false)
unfolding copy_file copy_rest
copies_part = refl

abbrev full_list : SymbolList
full_list = record { entries = an_entry ∷ []; len = 1; cap = 1 }

add_symbol_lem_example :
    (add_symbol for_entries full_list an_entry ≡ out_of_memory)
    ⊎ ((larger : SymbolList) × (add_symbol for_entries full_list an_entry ≡ succeeded larger)
        × (IsSymbolList larger × (entries_of larger ≡ an_entry ∷ an_entry ∷ [])))
add_symbol_lem_example =
    add_symbol_lem for_entries full_list an_entry for_entries-IsRealloc (refl, omega arith)
      (omega arith)

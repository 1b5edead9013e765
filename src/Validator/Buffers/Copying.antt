-- ===== src/Validator/Buffers/Copying.antt =====
-- `copy_file` writes a whole stream, or a first part of it.
use hermetic_llvm.Validator.Buffers.{copy_file, copy_rest, Source}
use hermetic_llvm.Bytes.{Bytes, is_empty}
use hermetic_llvm.Prelude.{
  ℕ, zero, suc, ◌<◌, ◌≡◌, refl, sym, ap, subst, ◌∙◌, inl, inr, Bool, true, false, not, Option, none,
  some, [], ◌++◌, append-nil, append_assoc, arith, ◌==◌, if◌then◌else◌, Bool-cases, length, take,
  drop, take_short, take-drop, length-take_le, length-drop,
}

-- How a copy of a text has ended: all of it is written and 1 is returned, or a first part of it and 0.
abbrev pub CopiedTo : Bool → Bytes → Bytes → Bool → Type 0
CopiedTo breaks text out true = (out ≡ text) × (breaks ≡ false)
CopiedTo breaks text out false = (rest : Bytes) × (out ++ rest ≡ text)

abbrev pub Ends : Bool → Bytes → Option (Bytes × Bool) → Type 0
Ends breaks text o =
    (out : Bytes) × (ok : Bool) × (o ≡ some (out, ok)) × CopiedTo breaks text out ok

short-Ends :
    (breaks : Bool) (text out : Bytes) → out ≡ text → Ends breaks text (some (out, not breaks))
short-Ends true text out e = (out, false, refl, ([], append-nil out ∙ e))
short-Ends false text out e = (out, true, refl, (e, refl))

guarded-Ends :
    (breaks : Bool) (text : Bytes) (skip : Bool) (stop : Option ℕ) (read : Option (Bytes × Bool))
    (partial : ℕ → Option (Bytes × Bool))
    → Ends breaks text read
    → ((n : ℕ) → Ends breaks text (partial n))
    → Ends breaks text (
        if skip
        then read
        else elim stop as (λ _. Option (Bytes × Bool)) [ none ↦ read | some n ↦ partial n ])
guarded-Ends breaks text true stop read partial whole part = whole
guarded-Ends breaks text false none read partial whole part = whole
guarded-Ends breaks text false (some n) read partial whole part = part n

-- What is written where a write stops behind `n` bytes.
part_of :
    (size n : ℕ) (written rest : Bytes)
    → (written ++ take n (take size rest)) ++ (drop n (take size rest) ++ drop size rest)
      ≡ written ++ rest
part_of size n written rest =
    let chunk = take size rest in
    let behind = drop size rest in
    append_assoc written (take n chunk) (drop n chunk ++ behind)
    ∙ ap (λ l. written ++ l)
        (sym (append_assoc (take n chunk) (drop n chunk) behind)
          ∙ ap (λ l. l ++ behind) (take-drop n chunk)
          ∙ take-drop size rest)

copy_rest-Ends :
    (fuel size : ℕ) (stops : ℕ → Option ℕ) (breaks : Bool) (index : ℕ) (rest written : Bytes)
    → 0 < size
    → length rest < fuel
    → Ends breaks (written ++ rest) (copy_rest fuel size stops breaks index rest written)
unfolding copy_rest
copy_rest-Ends zero size stops breaks index rest written positive enough = absurd (omega arith)
copy_rest-Ends (suc fuel) size stops breaks index rest written positive enough =
    let chunk = take size rest in
    let behind = drop size rest in
    let text = written ++ rest in
    let further = copy_rest fuel size stops breaks (suc index) behind (written ++ chunk) in
    let read = if length chunk == size then further else some (written ++ chunk, not breaks) in
    let whole : Ends breaks text read = elim (Bool-cases (length chunk == size)) [
      | inr short ↦
          let last : chunk ≡ rest =
            take_short size rest (ground (arith, length-take_le size rest)) in
          rw short (short-Ends breaks text (written ++ chunk) (ap (λ l. written ++ l) last))
      | inl full ↦
          let size_of : length chunk ≡ size = ground arith in
          let glued : (written ++ chunk) ++ behind ≡ text =
            append_assoc written chunk behind ∙ ap (λ l. written ++ l) (take-drop size rest) in
          rw full (
            subst (λ t. Ends breaks t further) glued
              (copy_rest-Ends fuel size stops breaks (suc index) behind (written ++ chunk) positive
                (omega (arith, length-drop size rest))))
    ] in
    guarded-Ends breaks text (is_empty chunk) (stops index) read
      (λ n. some (written ++ take n chunk, false)) whole
      (λ n. (
        written ++ take n chunk,
        false,
        refl,
        (drop n chunk ++ behind, part_of size n written rest),
      ))

-- `copy_file` ends: it returns 1, all of the stream is written and no read has failed, or it returns
-- 0 and a first part is written.
copy_file-Ends :
    (size : ℕ) (stops : ℕ → Option ℕ) (from : Source)
    → 0 < size
    → Ends from.breaks from.text (copy_file size stops from)
unfolding copy_file
copy_file-Ends size stops from positive =
    copy_rest-Ends (suc (length from.text)) size stops from.breaks 0 from.text [] positive
      (omega arith)

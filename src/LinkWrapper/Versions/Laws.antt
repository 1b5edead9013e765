-- ===== src/LinkWrapper/Versions/Laws.antt =====
-- The loop over pieces finds an `@` wherever it stands in the output.
use hermetic_llvm.LinkWrapper.Versions.{
  fgets, versions_loop, scan_output, Temporary, next_piece, fails, read_part, cut_off,
}
use hermetic_llvm.Bytes.{has_byte, c_string, Bytes, is_empty}
use hermetic_llvm.Prelude.{
  ℕ, zero, suc, ◌<◌, ◌≡◌, refl, sym, ap, subst, ◌∙◌, inl, inr, true, false, ◌||◌, some, [], ◌∷◌,
  ◌++◌, arith, ◌==◌, Bool-cases, length, length-append, All, none, Bool, ◌&&◌, if◌then◌else◌,
}

abbrev pub HasNoNul : Bytes → Type 0
HasNoNul text = All (λ c. (c == 0) ≡ false) text

fgets-append : (n : ℕ) (text : Bytes) → (fgets n text).0 ++ (fgets n text).1 ≡ text
unfolding fgets
fgets-append zero text = refl
fgets-append (suc n) [] = refl
fgets-append (suc n) (c ∷ text) = ground (arith, fgets-append n text)

-- A piece is empty only at the end.
fgets_empty : (n : ℕ) (text : Bytes) → is_empty (fgets (suc n) text).0 ≡ is_empty text
unfolding fgets
fgets_empty n [] = refl
fgets_empty n (c ∷ text) = ground arith

has_byte-append : (a b : Bytes) (c : ℕ) → has_byte (a ++ b) c ≡ (has_byte a c || has_byte b c)
unfolding has_byte
has_byte-append [] b c = refl
has_byte-append (x ∷ a) b c = ground (arith, has_byte-append a b c)

c_string-HasNoNul : (text : Bytes) → HasNoNul text → c_string text ≡ text
unfolding c_string
c_string-HasNoNul [] h = refl
c_string-HasNoNul (c ∷ text) h = ground (arith, c_string-HasNoNul text h.1)

HasNoNul-left : (a b : Bytes) → HasNoNul (a ++ b) → HasNoNul a
HasNoNul-left [] b h = tt
HasNoNul-left (c ∷ a) b h = (h.0, HasNoNul-left a b h.1)

HasNoNul-right : (a b : Bytes) → HasNoNul (a ++ b) → HasNoNul b
HasNoNul-right [] b h = h
HasNoNul-right (c ∷ a) b h = HasNoNul-right a b h.1

empty_has_byte : (text : Bytes) (c : ℕ) → is_empty text ≡ true → has_byte text c ≡ false
unfolding has_byte
empty_has_byte [] c h = refl
empty_has_byte (x ∷ text) c h = absurd (ground arith)

length_pos : (text : Bytes) → is_empty text ≡ false → 0 < length text
length_pos [] h = absurd (ground arith)
length_pos (x ∷ text) h = omega arith

versions_loop-has_byte :
    (fuel room : ℕ) (text : Bytes)
    → length text < fuel
    → HasNoNul text
    → versions_loop fuel false (suc room) text ≡ some (has_byte text b'@')
unfolding versions_loop next_piece
versions_loop-has_byte zero room text f h = absurd (omega arith)
versions_loop-has_byte (suc fuel) room text f h =
    let piece = (fgets (suc room) text).0 in
    let rest = (fgets (suc room) text).1 in
    let whole = fgets-append (suc room) text in
    elim (Bool-cases (is_empty text)) [
      | inl none_left ↦
          let nothing : is_empty piece ≡ true = fgets_empty room text ∙ none_left in
          rw nothing (ap some (sym (empty_has_byte text b'@' none_left)))
      | inr some_left ↦
          let full : is_empty piece ≡ false = fgets_empty room text ∙ some_left in
          let shorter : length rest < fuel =
            omega (arith, length_pos piece full, length-append piece rest, ap length whole) in
          let split_text = subst HasNoNul (sym whole) h in
          let again =
            versions_loop-has_byte fuel room rest shorter (HasNoNul-right piece rest split_text) in
          let read = c_string-HasNoNul piece (HasNoNul-left piece rest split_text) in
          let both : has_byte text b'@' ≡ (has_byte piece b'@' || has_byte rest b'@') =
            ap (λ t. has_byte t b'@') (sym whole) ∙ has_byte-append piece rest b'@' in
          rw (full, read, again, both)
            (elim (Bool-cases (has_byte piece b'@')) [ inl y ↦ rw y refl | inr n ↦ rw n refl ])
    ]

next_piece_shorter :
    (failing : Bool) (room : ℕ) (text : Bytes)
    → is_empty (next_piece failing (suc room) text).0 ≡ false
    → length (next_piece failing (suc room) text).1 < length text
unfolding next_piece
next_piece_shorter failing room text full =
    let (piece, rest) = fgets (suc room) text in
    let whole = fgets-append (suc room) text in
    elim (Bool-cases (failing && cut_off (suc room) piece rest)) [
      | inl lost ↦ absurd (ground arith)
      | inr came ↦
          let some_left : is_empty piece ≡ false = ground arith in
          let shorter : length rest < length text =
            omega (arith, length_pos piece some_left, length-append piece rest, ap length whole) in
          rw came shorter
    ]

-- The loop ends also where a read fails.
versions_loop_ends :
    (fuel : ℕ) (failing : Bool) (room : ℕ) (text : Bytes)
    → length text < fuel
    → (b : Bool) × (versions_loop fuel failing (suc room) text ≡ some b)
unfolding versions_loop
versions_loop_ends zero failing room text h = absurd (omega arith)
versions_loop_ends (suc fuel) failing room text h =
    let piece = (next_piece failing (suc room) text).0 in
    let rest = (next_piece failing (suc room) text).1 in
    elim (Bool-cases (is_empty piece)) [
      | inl none_left ↦ (false, rw (versions_loop, none_left) refl)
      | inr full ↦
          let shorter = next_piece_shorter failing room text full in
          let (b, e) = versions_loop_ends fuel failing room rest (omega (arith, shorter)) in
          elim (Bool-cases (has_byte (c_string piece) b'@')) [
            | inl y ↦ (true, rw (versions_loop, full, y) refl)
            | inr n ↦ (b, rw (versions_loop, full, n, e) refl)
          ]
    ]

pub scan_output_ends :
    (room : ℕ) (t : Temporary) (output : Bytes)
    → (r : ℕ × Bool) × (scan_output (suc room) t output ≡ some r)
unfolding scan_output
scan_output_ends room t output =
    let text = read_part t.readable output in
    elim (Bool-cases t.rewinds) [
      | inr stuck ↦ ((1, false), rw (scan_output, stuck) refl)
      | inl y ↦
          let (b, e) =
            versions_loop_ends (suc (length text)) (fails t.readable) room text (omega arith) in
          elim (Bool-cases b) [
            | inl found ↦ ((0, true), rw (scan_output, y, e, found) refl)
            | inr none_found ↦ (
              (if fails t.readable then 1 else 0, false),
              rw (scan_output, y, e, none_found) refl,
            )
          ]
    ]

-- Where the temporary file rewinds, all of it can be read and it has no zero byte, the scan ends
-- with status 0, and `*result` is whether an `@` stands anywhere in the output, however the lines
-- are cut.
pub scan_output_lem :
    (room : ℕ) (t : Temporary) (output : Bytes)
    → t.rewinds ≡ true
    → t.readable ≡ none
    → HasNoNul output
    → scan_output (suc room) t output ≡ some (0, has_byte output b'@')
unfolding scan_output
scan_output_lem room t output r whole h =
    let readable : fails t.readable ≡ false = ap fails whole in
    rw (r, whole, versions_loop-has_byte (suc (length output)) room output (omega arith) h)
      (elim (Bool-cases (has_byte output b'@')) [
        | inl y ↦ rw y refl
        | inr n ↦ rw (n, readable) refl
      ])

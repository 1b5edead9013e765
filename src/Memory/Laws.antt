-- ===== src/Memory/Laws.antt =====
-- The doubling of a capacity ends, and a written array holds what was written.
use hermetic_llvm.Memory.{double_until, size_t, write_at}
use hermetic_llvm.Prelude.{
  ℕ, zero, suc, ◌+◌, ◌*◌, ◌%◌, ◌≤◌, ◌<◌, ◌≡◌, refl, sym, ap, ◌∙◌, inl, inr, true, some, List, [],
  ◌∷◌, ◌++◌, append_assoc, arith, ltb, Bool-cases, length, get_elem?, take, drop, length-append,
  length-take, length-drop, take-append, get_elem?-append,
}

-- A capacity that has doubled so often.
doubled : ℕ → ℕ → ℕ
doubled zero cap = cap
doubled (suc n) cap = doubled n (cap * 2)

doubled_le : (n a b : ℕ) → a ≤ b → doubled n a ≤ doubled n b
unfolding doubled
doubled_le zero a b h = h
doubled_le (suc n) a b h = doubled_le n (a * 2) (b * 2) (omega arith)

double_until_goes_on :
    (n cap need : ℕ)
    → ltb cap need ≡ true
    → cap * 2 % size_t ≡ cap * 2
    → double_until (suc n) cap need ≡ double_until n (cap * 2) need
unfolding double_until
double_until_goes_on n cap need less exact = rw (less, exact) refl

double_until-doubled :
    (n cap need : ℕ)
    → need ≤ 9223372036854775808
    → need ≤ doubled n cap
    → (c : ℕ) × (double_until (suc n) cap need ≡ some c) × (need ≤ c) × (cap ≤ c)
unfolding double_until doubled
double_until-doubled zero cap need small h = (cap, ground arith, h, omega arith)
double_until-doubled (suc n) cap need small h = elim (Bool-cases (ltb cap need)) [
  | inr n_less ↦ (cap, ground arith, ground arith, omega arith)
  | inl less ↦
      let exact : cap * 2 % size_t ≡ cap * 2 = ground arith in
      let (c, e, enough, more) = double_until-doubled n (cap * 2) need small h in
      (c, double_until_goes_on (suc n) cap need less exact ∙ e, enough, omega arith)
]

-- 64 rounds are enough for a size up to 2 ^ 63.
pub double_until-some :
    (cap need : ℕ)
    → 0 < cap
    → need ≤ 9223372036854775808
    → (c : ℕ) × (double_until 64 cap need ≡ some c) × (need ≤ c) × (cap ≤ c)
unfolding doubled
double_until-some cap need positive small =
    let enough : doubled 63 1 ≡ 9223372036854775808 = refl in
    double_until-doubled 63 cap need small
      (omega (arith, doubled_le 63 1 cap (omega arith), enough))

module _ {ℓ} {A : Type ℓ} where
  pub write_at-length :
      (array : List A) (offset : ℕ) (values : List A)
      → offset + length values ≤ length array
      → length (write_at array offset values) ≡ length array
  unfolding write_at
  write_at-length array offset values h =
      let behind = drop (offset + length values) array in
      omega (
        arith,
        length-append (take offset array) (values ++ behind),
        length-append values behind,
        length-take offset array (omega arith),
        length-take (offset + length values) array h,
        length-drop (offset + length values) array,
      )

  -- What stands up to the end of the written part.
  pub take-write_at :
      (array : List A) (offset : ℕ) (values : List A)
      → offset ≤ length array
      → take (offset + length values) (write_at array offset values) ≡ take offset array ++ values
  unfolding write_at
  take-write_at array offset values h =
      let before = take offset array in
      let behind = drop (offset + length values) array in
      let size : length (before ++ values) ≡ offset + length values =
        omega (arith, length-append before values, length-take offset array h) in
      ap (λ l. take (offset + length values) l) (sym (append_assoc before values behind))
      ∙ ap (λ n. take n ((before ++ values) ++ behind)) (sym size)
      ∙ take-append (before ++ values) behind

  pub take-write_at_before :
      (array : List A) (offset : ℕ) (values : List A)
      → offset ≤ length array
      → take offset (write_at array offset values) ≡ take offset array
  unfolding write_at
  take-write_at_before array offset values h =
      let before = take offset array in
      let written = before ++ (values ++ drop (offset + length values) array) in
      ap (λ n. take n written) (sym (length-take offset array h)) ∙ take-append before _

  pub get_elem?-write_at :
      (array : List A) (offset : ℕ) (value : A)
      → offset ≤ length array
      → get_elem? (write_at array offset (value ∷ [])) offset ≡ some value
  unfolding write_at
  get_elem?-write_at array offset value h =
      let before = take offset array in
      let written = before ++ (value ∷ drop (offset + 1) array) in
      ap (λ n. get_elem? written n) (sym (length-take offset array h))
      ∙ get_elem?-append before (drop (offset + 1) array) value

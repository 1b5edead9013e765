-- ===== src/DefFile/StringSet/Contains.antt =====
-- The binary search of `string_set_contains` agrees with membership.
use Prim.Native.Nat.{Ordering}
use hermetic_llvm.Prelude.{
  ℕ, zero, suc, ◌+◌, ◌-◌, ◌/◌, ◌≤◌, ◌<◌, Bool, true, false, List, ◌≡◌, refl, arith, Option, some,
  length, get_elem?, inl, inr, Bool-cases, ltb,
}
use hermetic_llvm.Bytes.{Bytes, strcmp, strcmp-eq, strcmp-swap, str_lt_trans, str_lt_irrefl}
use hermetic_llvm.DefFile.StringSet.{StringList, search_loop, string_set_contains}
use hermetic_llvm.DefFile.StringSet.Order.{
  IsSorted, elem, elem-get_elem?, index_of_elem, get_elem?-lt, get_elem?-some, get_elem?-lt_length,
}

-- Where the value can still stand: only in the searched range.
abbrev Within : List Bytes → Bytes → ℕ → ℕ → Type 0
Within xs value low high = (i : ℕ) → get_elem? xs i ≡ some value → (low ≤ i) × (i < high)

module _ (xs : List Bytes) (value : Bytes) (sorted : IsSorted xs) where
  Within-upper :
      (low high m : ℕ) (x : Bytes)
      → get_elem? xs m ≡ some x
      → strcmp x value ≡ Ordering.lt
      → Within xs value low high
      → Within xs value (m + 1) high
  Within-upper low high m x e c w i h = (
    ground (arith, get_elem?-lt xs i m value x sorted h e, str_lt_trans x value x, str_lt_irrefl x),
    (w i h).1,
  )

  Within-lower :
      (low high m : ℕ) (x : Bytes)
      → get_elem? xs m ≡ some x
      → strcmp x value ≡ Ordering.gt
      → Within xs value low high
      → Within xs value low m
  Within-lower low high m x e c w i h = (
    (w i h).0,
    ground (
      arith,
      strcmp-swap x value c,
      get_elem?-lt xs m i x value sorted e h,
      str_lt_trans value x value,
      str_lt_irrefl value,
      str_lt_irrefl x,
    ),
  )

  absent : (low high : ℕ) → high ≤ low → Within xs value low high → elem value xs ≡ false
  absent low high h w = elim (Bool-cases (elem value xs)) [
    | inr gone ↦ gone
    | inl found ↦
        let (i, e) = index_of_elem value xs found in absurd (omega (arith, (w i e).0, (w i e).1))
  ]

  -- One round, by the result of the comparison at the middle.
  round-elem :
      {upper lower : Option Bool} (m : ℕ) (x : Bytes)
      → get_elem? xs m ≡ some x
      → (strcmp x value ≡ Ordering.lt → upper ≡ some (elem value xs))
      → (strcmp x value ≡ Ordering.gt → lower ≡ some (elem value xs))
      → (c : Ordering) → strcmp x value ≡ c
      → (elim (strcmp x value) as (λ _. Option Bool) [
        | Ordering.lt ↦ upper
        | Ordering.eq ↦ some true
        | Ordering.gt ↦ lower
      ])
        ≡ some (elem value xs)
  round-elem m x e up down Ordering.eq c =
      rw c (ground (arith, strcmp-eq x value c, elem-get_elem? x xs m e))
  round-elem m x e up down Ordering.lt c = rw c (up c)
  round-elem m x e up down Ordering.gt c = rw c (down c)

  search_loop-elem :
      (fuel low high : ℕ)
      → low ≤ high
      → high < fuel + low
      → high ≤ length xs
      → Within xs value low high
      → search_loop fuel xs value low high ≡ some (elem value xs)
  unfolding search_loop
  search_loop-elem zero low high o f h w = absurd (omega arith)
  search_loop-elem (suc fuel) low high o f h w = elim (Bool-cases (ltb low high)) [
    | inr done ↦ rw done (ground (arith, absent low high (ground arith) w))
    | inl more ↦
        let m = low + (high - low) / 2 in
        let inside : (low ≤ m) × (m < high) = ground arith in
        let (x, e) = get_elem?-some xs m (omega arith) in
        rw (more, e)
          (round-elem m x e
            (λ c.
              search_loop-elem fuel (m + 1) high (omega arith) (omega arith) h
                (Within-upper low high m x e c w))
            (λ c.
              search_loop-elem fuel low m (omega arith) (omega arith) (omega arith)
                (Within-lower low high m x e c w))
            (strcmp x value) refl)
  ]

-- On a sorted set `string_set_contains` ends, reads only inside the array, and answers exactly
-- whether the value is one of the set's values.
pub string_set_contains-elem :
    (set : StringList) (value : Bytes)
    → IsSorted set.values
    → string_set_contains set value ≡ some (elem value set.values)
unfolding string_set_contains
string_set_contains-elem set value sorted =
    search_loop-elem set.values value sorted (suc (length set.values)) 0 (length set.values)
      (omega arith) (omega arith) (omega arith)
      (λ i e. (omega arith, get_elem?-lt_length set.values i value e))

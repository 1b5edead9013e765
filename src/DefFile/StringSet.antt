-- ===== src/DefFile/StringSet.antt =====
-- `struct string_list` of tools/def_file_generator/def_file_generator.c, as the growing list of
-- `string_list_append` and as the sorted set of the `string_set_` functions.
pub mod Order
pub mod Insert
pub mod Contains
use hermetic_llvm.Prelude.{
  ℕ, zero, suc, ◌+◌, ◌-◌, ◌*◌, ◌/◌, Bool, true, false, List, [], ◌∷◌, ◌++◌, Option, none, some, ltb,
  ◌==◌, if◌then◌else◌, length, get_elem?, take, drop,
}
use hermetic_llvm.Bytes.{Bytes, strcmp, str_eq, str_lt}

-- The `count` is the length of `values`; `capacity` is the room that was allocated.
pub record StringList : Type 0 where
  pub values : List Bytes
  pub capacity : ℕ

abbrev pub empty_list : StringList
empty_list = record { values = []; capacity = 0 }

-- The reallocation that precedes a write at `values[count]`.
abbrev pub grown : StringList → ℕ
grown list =
    if length list.values == list.capacity
    then (if list.capacity == 0 then 32 else list.capacity * 2)
    else list.capacity

unfoldable pub string_list_append : StringList → Bytes → StringList
string_list_append list value = record { values = list.values ++ value ∷ []; capacity = grown list }

-- The first `while` of `string_set_insert`: how many leading values are below `value`.
pub insert_position : List Bytes → Bytes → ℕ
insert_position [] value = 0
insert_position (x ∷ xs) value = if str_lt x value then suc (insert_position xs value) else 0

-- `position < count && strcmp(values[position], value) == 0`.
pub holds_at : List Bytes → ℕ → Bytes → Bool
holds_at xs position value = elim (get_elem? xs position) [ none ↦ false | some x ↦ str_eq x value ]

-- The `memmove` by one slot and the store.
pub insert_at : List Bytes → ℕ → Bytes → List Bytes
insert_at xs position value = take position xs ++ value ∷ drop position xs

unfoldable pub string_set_insert : StringList → Bytes → StringList
unfolding insert_position holds_at insert_at
string_set_insert set value =
    let position = insert_position set.values value in
    if holds_at set.values position value
    then set
    else record { values = insert_at set.values position value; capacity = grown set }

-- The binary search. `none` is a read past the end, or the end of the fuel.
pub search_loop : ℕ → List Bytes → Bytes → ℕ → ℕ → Option Bool
search_loop zero xs value low high = none
search_loop (suc fuel) xs value low high =
    if ltb low high
    then (let middle = low + (high - low) / 2 in
        elim (get_elem? xs middle) [
          | none ↦ none
          | some x ↦ elim (strcmp x value) [
            | Prim.Native.Nat.Ordering.eq ↦ some true
            | Prim.Native.Nat.Ordering.lt ↦ search_loop fuel xs value (middle + 1) high
            | Prim.Native.Nat.Ordering.gt ↦ search_loop fuel xs value low middle
          ]
        ])
    else some false

-- Every round shortens the range, so one round more than the count is enough.
unfoldable pub string_set_contains : StringList → Bytes → Option Bool
unfolding search_loop
string_set_contains set value =
    search_loop (suc (length set.values)) set.values value 0 (length set.values)

-- The `memmove` over the removed slot.
unfoldable pub string_set_remove_at : StringList → ℕ → StringList
string_set_remove_at set position = record set {
  values = take position set.values ++ drop (suc position) set.values;
}

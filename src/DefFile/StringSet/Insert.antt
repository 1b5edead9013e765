-- ===== src/DefFile/StringSet/Insert.antt =====
-- `string_set_insert` adds one member, keeps the order, and stays within the allocated room.
use hermetic_llvm.DefFile.StringSet.Contains.{string_set_contains-elem}
use hermetic_llvm.Prelude.{
  true, ◌||◌, List, [], ◌∷◌, ◌≡◌, refl, arith, All, if◌then◌else◌, length, ◌≤◌, suc, some, ◌∙◌, ap,
}
use hermetic_llvm.Bytes.{Bytes, str_eq, str_lt, str_eq_iff, strcmp-swap, str_lt_trans}
use hermetic_llvm.DefFile.StringSet.{
  StringList, insert_position, holds_at, insert_at, string_set_insert, string_set_contains,
}
use hermetic_llvm.DefFile.StringSet.Order.{IsSorted, elem}

-- The search, the test and the move in one pass.
unfoldable pub insert_sorted : List Bytes → Bytes → List Bytes
insert_sorted [] v = v ∷ []
insert_sorted (x ∷ xs) v =
    if str_lt x v then x ∷ insert_sorted xs v else if str_eq x v then x ∷ xs else v ∷ x ∷ xs

abbrev values_inserted : List Bytes → Bytes → List Bytes
values_inserted xs v =
    let position = insert_position xs v in
    if holds_at xs position v then xs else insert_at xs position v

inserted-insert_sorted : (xs : List Bytes) (v : Bytes) → values_inserted xs v ≡ insert_sorted xs v
unfolding insert_position holds_at insert_at insert_sorted
inserted-insert_sorted [] v = refl
inserted-insert_sorted (x ∷ xs) v = ground (arith, inserted-insert_sorted xs v)

pub values-insert :
    (set : StringList) (v : Bytes) → (string_set_insert set v).values ≡ insert_sorted set.values v
unfolding string_set_insert
values-insert set v = ground (arith, inserted-insert_sorted set.values v)

pub elem-insert_sorted :
    (xs : List Bytes) (v w : Bytes) → elem w (insert_sorted xs v) ≡ (str_eq v w || elem w xs)
unfolding elem insert_sorted
elem-insert_sorted [] v w = refl
elem-insert_sorted (x ∷ xs) v w =
    ground (arith, elem-insert_sorted xs v w, str_eq_iff x v, str_eq_iff x w)

All-insert_sorted :
    (P : Bytes → Type 0) (xs : List Bytes) (v : Bytes) → P v → All P xs → All P (insert_sorted xs v)
unfolding insert_sorted
All-insert_sorted P [] v p h = (p, tt)
All-insert_sorted P (x ∷ xs) v p h = ground (arith, All-insert_sorted P xs v p h.1)

All-lt_trans :
    (v x : Bytes) (xs : List Bytes)
    → str_lt v x ≡ true
    → All (λ y. str_lt x y ≡ true) xs
    → All (λ y. str_lt v y ≡ true) xs
All-lt_trans v x [] h a = tt
All-lt_trans v x (y ∷ ys) h a = (str_lt_trans v x y h a.0, All-lt_trans v x ys h a.1)

pub insert_sorted-IsSorted :
    (xs : List Bytes) (v : Bytes) → IsSorted xs → IsSorted (insert_sorted xs v)
unfolding insert_sorted
insert_sorted-IsSorted [] v s = (tt, tt)
insert_sorted-IsSorted (x ∷ xs) v s = ground (
  arith,
  insert_sorted-IsSorted xs v s.1,
  All-insert_sorted (λ y. str_lt x y ≡ true) xs v,
  strcmp-swap x v,
  All-lt_trans v x xs,
)

-- The set's array: within its allocation, and strictly ascending.
pub record IsValid (set : StringList) : Type 0 where
  pub room : length set.values ≤ set.capacity
  pub sorted : IsSorted set.values

length-insert_sorted : (xs : List Bytes) (v : Bytes) → length (insert_sorted xs v) ≤ suc (length xs)
unfolding insert_sorted
length-insert_sorted [] v = omega arith
length-insert_sorted (x ∷ xs) v = ground (arith, length-insert_sorted xs v)

-- The room after the reallocation holds one value more.
room-insert :
    (set : StringList) (v : Bytes)
    → length set.values ≤ set.capacity
    → length (string_set_insert set v).values ≤ (string_set_insert set v).capacity
unfolding string_set_insert
room-insert set v h =
    ground (arith, length-insert_sorted set.values v, inserted-insert_sorted set.values v)

-- `string_set_insert` keeps the set valid: strictly ascending, and never past its allocation.
pub string_set_insert-IsValid :
    (set : StringList) (v : Bytes) → IsValid set → IsValid (string_set_insert set v)
string_set_insert-IsValid set v h = record {
  room = room-insert set v h.room;
  sorted = rw (values-insert set v) (insert_sorted-IsSorted set.values v h.sorted);
}

-- After `string_set_insert` the members are the old ones and the value.
pub string_set_insert-elem :
    (set : StringList) (v w : Bytes)
    → elem w (string_set_insert set v).values ≡ (str_eq v w || elem w set.values)
string_set_insert-elem set v w = rw (values-insert set v) (elem-insert_sorted set.values v w)

-- What `string_set_insert` has stored, `string_set_contains` finds, and the other values it finds
-- exactly when it found them before.
pub contains-insert :
    (set : StringList) (v w : Bytes)
    → IsValid set
    → string_set_contains (string_set_insert set v) w ≡ some (str_eq v w || elem w set.values)
contains-insert set v w h =
    string_set_contains-elem (string_set_insert set v) w (string_set_insert-IsValid set v h).sorted
    ∙ ap some (string_set_insert-elem set v w)

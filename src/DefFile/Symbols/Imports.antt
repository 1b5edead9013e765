-- ===== src/DefFile/Symbols/Imports.antt =====
-- `remove_imported_symbols` is a filter, and keeps the sets valid.
use hermetic_llvm.DefFile.StringSet.Insert.{IsValid}
use hermetic_llvm.DefFile.StringSet.Contains.{string_set_contains-elem}
use hermetic_llvm.DefFile.StringSet.Order.{elem, IsSorted}
use hermetic_llvm.Bytes.{Bytes, str_eq_iff}
use hermetic_llvm.DefFile.Symbols.{
  remove_loop, remove_imported_symbols, remove_imported, SymbolSets, AreValid,
}
use hermetic_llvm.Prelude.{
  ℕ, zero, suc, ◌<◌, ◌≡◌, refl, ap, some, List, [], ◌∷◌, ◌++◌, append-nil, append_assoc, arith,
  length, get_elem?, take, drop, length-append, if◌then◌else◌, All, ◌&&◌, Bool-cases, ◌≤◌, not, inl,
  inr,
}
use hermetic_llvm.DefFile.StringSet.{StringList, string_set_remove_at}

-- What stays of a list: the values that are not import pointers.
abbrev pub kept : List Bytes → List Bytes → List Bytes
kept pointers [] = []
kept pointers (v ∷ vs) = if elem v pointers then kept pointers vs else v ∷ kept pointers vs

get_elem?-append :
    (done rest : List Bytes) → get_elem? (done ++ rest) (length done) ≡ get_elem? rest 0
get_elem?-append [] rest = refl
get_elem?-append (x ∷ done) rest = get_elem?-append done rest

take-append : (done rest : List Bytes) → take (length done) (done ++ rest) ≡ done
take-append [] rest = refl
take-append (x ∷ done) rest = ap (◌∷◌ x) (take-append done rest)

drop-append :
    (done : List Bytes) (x : Bytes) (rest : List Bytes)
    → drop (suc (length done)) (done ++ x ∷ rest) ≡ rest
drop-append [] x rest = refl
drop-append (y ∷ done) x rest = drop-append done x rest

remove_at-append :
    (list : StringList) (done : List Bytes) (x : Bytes) (rest : List Bytes)
    → list.values ≡ done ++ x ∷ rest
    → string_set_remove_at list (length done) ≡ record list { values = done ++ rest }
unfolding string_set_remove_at
remove_at-append list done x rest e =
    rw (e, take-append done (x ∷ rest), drop-append done x rest) refl

-- The loop with `done` passed and `rest` to come.
remove_loop-kept :
    (fuel : ℕ) (import_pointers list : StringList) (done rest : List Bytes)
    → IsSorted import_pointers.values
    → list.values ≡ done ++ rest
    → length rest < fuel
    → remove_loop fuel import_pointers list (length done)
      ≡ some (record list { values = done ++ kept import_pointers.values rest })
unfolding remove_loop
remove_loop-kept zero ip list done rest s e h = absurd (omega arith)
remove_loop-kept (suc fuel) ip list done [] s e h =
    ground (arith, get_elem?-append done [], append-nil done)
remove_loop-kept (suc fuel) ip list done (x ∷ rest) s e h = ground (
  arith,
  get_elem?-append done (x ∷ rest),
  string_set_contains-elem ip x s,
  length-append done (x ∷ []),
  append_assoc done (x ∷ []) rest,
  append_assoc done (x ∷ []) (kept ip.values rest),
  remove_at-append list done x rest e,
  remove_loop-kept fuel ip (string_set_remove_at list (length done)) done rest s,
  remove_loop-kept fuel ip list (done ++ x ∷ []) rest s,
)

pub elem-kept :
    (pointers values : List Bytes) (w : Bytes)
    → elem w (kept pointers values) ≡ (elem w values && not (elem w pointers))
unfolding elem
elem-kept pointers [] w = refl
elem-kept pointers (v ∷ vs) w = ground (arith, elem-kept pointers vs w, str_eq_iff v w)

All-kept :
    (P : Bytes → Type 0) (pointers values : List Bytes)
    → All P values
    → All P (kept pointers values)
All-kept P pointers [] h = tt
All-kept P pointers (v ∷ vs) h = elim (Bool-cases (elem v pointers)) [
  | inl gone ↦ rw gone (All-kept P pointers vs h.1)
  | inr stays ↦ rw stays (h.0, All-kept P pointers vs h.1)
]

kept-IsSorted : (pointers values : List Bytes) → IsSorted values → IsSorted (kept pointers values)
kept-IsSorted pointers [] s = tt
kept-IsSorted pointers (v ∷ vs) s = elim (Bool-cases (elem v pointers)) [
  | inl gone ↦ rw gone (kept-IsSorted pointers vs s.1)
  | inr stays ↦ rw stays (All-kept _ pointers vs s.0, kept-IsSorted pointers vs s.1)
]

length-kept : (pointers values : List Bytes) → length (kept pointers values) ≤ length values
length-kept pointers [] = omega arith
length-kept pointers (v ∷ vs) = ground (arith, length-kept pointers vs)

kept-IsValid :
    (pointers : List Bytes) (list : StringList)
    → IsValid list
    → IsValid (record list { values = kept pointers list.values })
kept-IsValid pointers list h = record {
  room = omega (arith, length-kept pointers list.values, h.room);
  sorted = kept-IsSorted pointers list.values h.sorted;
}

remove_imported-kept :
    (import_pointers list : StringList)
    → IsSorted import_pointers.values
    → remove_imported import_pointers list
      ≡ some (record list { values = kept import_pointers.values list.values })
remove_imported-kept ip list s =
    remove_loop-kept (suc (length list.values)) ip list [] list.values s refl (omega arith)

-- The sets without the import pointers.
abbrev pub without : SymbolSets → StringList → SymbolSets
without sets ip = record {
  symbols = record (sets.symbols) { values = kept ip.values sets.symbols.values };
  data_symbols = record (sets.data_symbols) { values = kept ip.values sets.data_symbols.values };
}

pub remove_imported_symbols-without :
    (sets : SymbolSets) (ip : StringList)
    → IsSorted ip.values
    → remove_imported_symbols sets ip ≡ some (without sets ip)
unfolding remove_imported_symbols
remove_imported_symbols-without sets ip s =
    ground
      (arith, remove_imported-kept ip sets.symbols s, remove_imported-kept ip sets.data_symbols s)

pub without-AreValid :
    (sets : SymbolSets) (ip : StringList) → AreValid sets → AreValid (without sets ip)
without-AreValid sets ip h = record {
  symbols_valid = kept-IsValid ip.values sets.symbols h.symbols_valid;
  data_valid = kept-IsValid ip.values sets.data_symbols h.data_valid;
}

-- On valid sets and a valid set of import pointers `remove_imported_symbols` ends with no read out
-- of bounds; its result is valid, and the members of each of its two sets are exactly the members
-- from before that are no import pointer.
pub remove_imported_symbols_lem :
    (sets : SymbolSets) (ip : StringList)
    → AreValid sets
    → IsValid ip
    → (result : SymbolSets) × (remove_imported_symbols sets ip ≡ some result)
      × AreValid result
      × ((w : Bytes)
          → elem w result.symbols.values ≡ (elem w sets.symbols.values && not (elem w ip.values)))
      × ((w : Bytes)
          → elem w result.data_symbols.values
            ≡ (elem w sets.data_symbols.values && not (elem w ip.values)))
remove_imported_symbols_lem sets ip h v = (
  without sets ip,
  remove_imported_symbols-without sets ip v.sorted,
  without-AreValid sets ip h,
  elem-kept ip.values sets.symbols.values,
  elem-kept ip.values sets.data_symbols.values,
)

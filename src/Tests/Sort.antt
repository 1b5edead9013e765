-- ===== src/Tests/Sort.antt =====
-- An insertion sort: a function that does what the C library's `qsort` promises.
use hermetic_llvm.Prelude.{arith, List, [], ◌∷◌, All, ◌≢◌, ◌≡◌, refl}
use Prim.Native.Nat.{Ordering}
use mathlib.Core.List.{Perm}
use mathlib.Core.List.Perm

module _ {A : Type 0} (cmp : A → A → Ordering) where
  -- What stands before `x` is at most `x`.
  unfoldable pub insert : A → List A → List A
  insert x [] = x ∷ []
  insert x (y ∷ l) = elim (cmp x y) [
    | Ordering.gt ↦ y ∷ insert x l
    | Ordering.eq ↦ x ∷ y ∷ l
    | Ordering.lt ↦ x ∷ y ∷ l
  ]

  unfoldable pub insertion_sort : List A → List A
  insertion_sort [] = []
  insertion_sort (x ∷ l) = insert x (insertion_sort l)

  insert-perm : (x : A) (l : List A) → Perm (insert x l) (x ∷ l)
  unfolding insert
  insert-perm x [] = Perm.refl _
  insert-perm x (y ∷ l) =
      elim (cmp x y)
        as (λ o.
          Perm
            (elim o as (λ _. List A) [
              | Ordering.gt ↦ y ∷ insert x l
              | Ordering.eq ↦ x ∷ y ∷ l
              | Ordering.lt ↦ x ∷ y ∷ l
            ])
            (x ∷ y ∷ l)) [
              | Ordering.gt ↦ Perm.trans (Perm.cons y (insert-perm x l)) (Perm.swap x y l)
              | Ordering.eq ↦ Perm.refl _
              | Ordering.lt ↦ Perm.refl _
            ]

  pub insertion_sort-perm : (l : List A) → Perm (insertion_sort l) l
  unfolding insertion_sort
  insertion_sort-perm [] = Perm.refl _
  insertion_sort-perm (x ∷ l) =
      Perm.trans (insert-perm x (insertion_sort l)) (Perm.cons x (insertion_sort-perm l))

  abbrev pub AscendsBy : List A → Type 0
  AscendsBy [] = Unit
  AscendsBy (x ∷ l) = All (λ y. cmp x y ≢ Ordering.gt) l × AscendsBy l

  module _ (total : (x y : A) → cmp x y ≡ Ordering.gt → cmp y x ≢ Ordering.gt)
      (trans : (x y z : A)
        → cmp x y ≢ Ordering.gt
        → cmp y z ≢ Ordering.gt
        → cmp x z ≢ Ordering.gt) where
    All-insert : (P : A → Type 0) (x : A) (l : List A) → P x → All P l → All P (insert x l)
    unfolding insert
    All-insert P x [] p h = (p, tt)
    All-insert P x (y ∷ l) p h =
        elim (cmp x y)
          as (λ o. All P (elim o as (λ _. List A) [
            | Ordering.gt ↦ y ∷ insert x l
            | Ordering.eq ↦ x ∷ y ∷ l
            | Ordering.lt ↦ x ∷ y ∷ l
          ])) [
            | Ordering.gt ↦ (h.0, All-insert P x l p h.1)
            | Ordering.eq ↦ (p, h)
            | Ordering.lt ↦ (p, h)
          ]

    All-trans :
        (x y : A) (l : List A)
        → cmp x y ≢ Ordering.gt
        → All (λ z. cmp y z ≢ Ordering.gt) l
        → All (λ z. cmp x z ≢ Ordering.gt) l
    All-trans x y [] h k = tt
    All-trans x y (z ∷ l) h k = (trans x y z h k.0, All-trans x y l h k.1)

    insert-AscendsBy : (x : A) (l : List A) → AscendsBy l → AscendsBy (insert x l)
    unfolding insert
    insert-AscendsBy x [] h = (tt, tt)
    insert-AscendsBy x (y ∷ l) h = go (cmp x y) refl (insert-AscendsBy x l h.1)
      where
        go : (o : Ordering) → cmp x y ≡ o → AscendsBy (insert x l) → AscendsBy (insert x (y ∷ l))
        go Ordering.gt e k = rw (e, AscendsBy) (All-insert _ x l (total x y e) h.0, k)
        go Ordering.eq e k =
            let low : cmp x y ≢ Ordering.gt = λ g. ground (arith, e, g) in
            rw (e, AscendsBy) ((low, All-trans x y l low h.0), h)
        go Ordering.lt e k =
            let low : cmp x y ≢ Ordering.gt = λ g. ground (arith, e, g) in
            rw (e, AscendsBy) ((low, All-trans x y l low h.0), h)

    pub insertion_sort-AscendsBy : (l : List A) → AscendsBy (insertion_sort l)
    unfolding insertion_sort
    insertion_sort-AscendsBy [] = tt
    insertion_sort-AscendsBy (x ∷ l) =
        insert-AscendsBy x (insertion_sort l) (insertion_sort-AscendsBy l)

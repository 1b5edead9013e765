-- ===== src/Prelude/Perms.antt =====
-- Rearrangements of a list keep the number of members that pass a test, and whether one does.
use hermetic_llvm.Prelude.Lists.{any_of}
use hermetic_llvm.Prelude.Tests.{if◌then◌else◌}
use Prim.Native.Nat.{ℕ, ◌+◌}
use mathlib.Core.Path.{◌≡◌, refl, ap, ◌∙◌}
use mathlib.Core.Bool.{Bool, Bool-set}
use native.Mathlib.Nat.{ℕ_set}
use native.Mathlib.Omega.{arith}
use mathlib.Core.List.{List, [], ◌∷◌, Perm, Permᴰ}
use mathlib.Core.Logic.{∥∥₁_elim}

module _ {ℓ} {A : Type ℓ} where
  any_of-permᴰ : (p : A → Bool) {l r : List A} → Permᴰ l r → any_of p l ≡ any_of p r
  any_of-permᴰ p Permᴰ.nil = refl
  any_of-permᴰ p (Permᴰ.cons e h) = cc (ap p e, any_of-permᴰ p h)
  any_of-permᴰ p (Permᴰ.swap e f) = ground (arith, ap p e, ap p f)
  any_of-permᴰ p (Permᴰ.trans h k) = any_of-permᴰ p h ∙ any_of-permᴰ p k

  -- A rearrangement has the same members.
  pub any_of-perm : (p : A → Bool) {l r : List A} → Perm l r → any_of p l ≡ any_of p r
  any_of-perm p h = ∥∥₁_elim h (Bool-set _ _) (any_of-permᴰ p)

  -- How many elements pass a test.
  abbrev pub count_if : (A → Bool) → List A → ℕ
  count_if p [] = 0
  count_if p (e ∷ es) = (if p e then 1 else 0) + count_if p es

  count_if-permᴰ : (p : A → Bool) {l r : List A} → Permᴰ l r → count_if p l ≡ count_if p r
  count_if-permᴰ p Permᴰ.nil = refl
  count_if-permᴰ p (Permᴰ.cons e h) = ground (arith, ap p e, count_if-permᴰ p h)
  count_if-permᴰ p (Permᴰ.swap e f) = ground (arith, ap p e, ap p f)
  count_if-permᴰ p (Permᴰ.trans h k) = count_if-permᴰ p h ∙ count_if-permᴰ p k

  pub count_if-perm : (p : A → Bool) {l r : List A} → Perm l r → count_if p l ≡ count_if p r
  count_if-perm p h = ∥∥₁_elim h (ℕ_set _ _) (count_if-permᴰ p)

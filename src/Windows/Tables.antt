-- ===== src/Windows/Tables.antt =====
-- The table of descriptors, through the calls of the runtime.
use hermetic_llvm.Windows.{Crt, IsCrt, bind}
use hermetic_llvm.Prelude.{
  ℕ, ◌≡◌, sym, ◌∙◌, true, false, Option, none, some, arith, ap, ◌⊎◌, inl, inr, refl, Bool-cases,
}

-- A state has a table.
abbrev pub HasTable : (c : Crt) → c.State → (ℕ → Option ℕ) → Type 0
HasTable c s t = (m : ℕ) → c.table s m ≡ t m

module _ (c : Crt) (law : IsCrt c) (s : c.State) (t : ℕ → Option ℕ) (has : HasTable c s t) where
  pub dup-HasTable :
      (fd n : ℕ) → (c.dup s fd).0 ≡ some n → HasTable c (c.dup s fd).1 (bind t n (t fd))
  dup-HasTable fd n e m = ground (arith, law.dup-bind s fd n m, has m, has fd)

  pub dup-fresh_table : (fd n : ℕ) → (c.dup s fd).0 ≡ some n → t n ≡ none
  dup-fresh_table fd n e = sym (has n) ∙ law.dup-fresh s fd n e

  pub dup_none-HasTable : (fd : ℕ) → (c.dup s fd).0 ≡ none → HasTable c (c.dup s fd).1 t
  dup_none-HasTable fd e m = law.dup-same s fd m e ∙ has m

  pub dup2-HasTable :
      (from to : ℕ)
      → (c.dup2 s from to).0 ≡ true
      → HasTable c (c.dup2 s from to).1 (bind t to (t from))
  dup2-HasTable from to e m = ground (arith, law.dup2-bind s from to m e, has m, has from)

  pub dup2_false-HasTable :
      (from to : ℕ) → (c.dup2 s from to).0 ≡ false → HasTable c (c.dup2 s from to).1 t
  dup2_false-HasTable from to e m = law.dup2-same s from to m e ∙ has m

  pub close-HasTable : (fd : ℕ) → HasTable c (c.close s fd) (bind t fd none)
  close-HasTable fd m = ground (arith, law.close-bind s fd m, has m)

-- A call has left the descriptors of a table; or the `_dup2` that gives the standard output back from
-- its copy has failed, and the copy is closed and the standard output still the file.
abbrev pub BackOr : (c : Crt) → (ℕ → Option ℕ) → ℕ → c.State → Type 0
BackOr c t file left =
    HasTable c left t
    ⊎ ((s : c.State) × (saved : ℕ) × (c.table s saved ≡ t 1)
        × ((c.dup2 s saved 1).0 ≡ false)
        × (left ≡ c.close (c.dup2 s saved 1).1 saved)
        × HasTable c left (bind t 1 (some file)))

module _ (c : Crt) (law : IsCrt c) (t : ℕ → Option ℕ) (o : ℕ) (is_out : t 1 ≡ some o) where
  -- The standard output is saved.
  pub saved_out-HasTable :
      (s : c.State) (saved : ℕ)
      → HasTable c s t
      → (c.dup s 1).0 ≡ some saved
      → (t saved ≡ none) × HasTable c (c.dup s 1).1 (bind t saved (some o))
  saved_out-HasTable s saved has e =
      let has1 = dup-HasTable c law s t has 1 saved e in
      (
        dup-fresh_table c law s t has 1 saved e,
        λ m. has1 m ∙ ap (λ (v : Option ℕ). bind t saved v m) is_out,
      )

  -- It is redirected to a file that is open.
  pub redirected-HasTable :
      (s : c.State) (out f saved : ℕ)
      → t saved ≡ none
      → HasTable c s (bind t saved (some o))
      → t out ≡ some f
      → (c.dup2 s out 1).0 ≡ true
      → HasTable c (c.dup2 s out 1).1 (bind (bind t saved (some o)) 1 (some f))
  redirected-HasTable s out f saved fresh has is_file good =
      let here : bind t saved (some o) out ≡ some f = ground arith in
      let has2 = dup2-HasTable c law s (bind t saved (some o)) has out 1 good in
      λ m. has2 m ∙ ap (λ (v : Option ℕ). bind (bind t saved (some o)) 1 v m) here

  -- It is not redirected, and its copy is closed.
  pub unredirected-HasTable :
      (s : c.State) (out saved : ℕ)
      → t saved ≡ none
      → HasTable c s (bind t saved (some o))
      → (c.dup2 s out 1).0 ≡ false
      → HasTable c (c.close (c.dup2 s out 1).1 saved) t
  unredirected-HasTable s out saved fresh has bad =
      let has2 = dup2_false-HasTable c law s (bind t saved (some o)) has out 1 bad in
      let closed = close-HasTable c law (c.dup2 s out 1).1 (bind t saved (some o)) has2 saved in
      λ m. closed m ∙ ground arith

  -- It is restored, and its copy is closed.
  pub restored-HasTable :
      (s : c.State) (saved f : ℕ)
      → t saved ≡ none
      → HasTable c s (bind (bind t saved (some o)) 1 (some f))
      → (c.dup2 s saved 1).0 ≡ true
      → HasTable c (c.close (c.dup2 s saved 1).1 saved) t
  restored-HasTable s saved f fresh has good =
      let before = bind (bind t saved (some o)) 1 (some f) in
      let back = dup2-HasTable c law s before has saved 1 good in
      let closed =
        close-HasTable c law (c.dup2 s saved 1).1 (bind before 1 (before saved)) back saved in
      λ m. closed m ∙ ground arith

  pub restored-BackOr :
      (s : c.State) (saved f : ℕ)
      → t saved ≡ none
      → HasTable c s (bind (bind t saved (some o)) 1 (some f))
      → BackOr c t f (c.close (c.dup2 s saved 1).1 saved)
  restored-BackOr s saved f fresh has = elim (Bool-cases (c.dup2 s saved 1).0) [
    | inl good ↦ inl (restored-HasTable s saved f fresh has good)
    | inr bad ↦
        let before = bind (bind t saved (some o)) 1 (some f) in
        let kept = dup2_false-HasTable c law s before has saved 1 bad in
        let closed = close-HasTable c law (c.dup2 s saved 1).1 before kept saved in
        let copied : before saved ≡ some o = ground arith in
        inr (s, saved, has saved ∙ copied ∙ sym is_out, bad, refl, λ m. closed m ∙ ground arith)
  ]

-- ===== src/Validator/WindowsProcess/Laws.antt =====
-- The table of descriptors through the steps of `run` of
-- tools/internal/static_library_validator.c, in the Windows branch.
use hermetic_llvm.Windows.Tables.{HasTable, dup2-HasTable, close-HasTable, dup2_false-HasTable}
use hermetic_llvm.Validator.WindowsProcess.{restore, redirect}
use hermetic_llvm.Windows.{Crt, bind, IsCrt}
use hermetic_llvm.Prelude.{
  ℕ, ◌≡◌, refl, ap, ◌∙◌, ◌≢◌, true, false, Option, none, some, arith, ◌⊎◌, inl, inr, Bool-cases,
}

-- A file that is given has an open descriptor.
abbrev pub IsOpen : (ℕ → Option ℕ) → Option ℕ → Type 0
IsOpen t none = Unit
IsOpen t (some fd) = (file : ℕ) × (t fd ≡ some file)

-- The file that a stream refers to once it is redirected.
abbrev pub target : (ℕ → Option ℕ) → Option ℕ → Option ℕ → Option ℕ
target t none old = old
target t (some fd) old = t fd

-- The table while a call runs: the two streams saved, and both redirected.
abbrev pub busy : (ℕ → Option ℕ) → ℕ → ℕ → Option ℕ → Option ℕ → ℕ → Option ℕ
busy t saved_in saved_out input output =
    bind (bind (bind (bind t saved_in (t 0)) saved_out (t 1)) 0 input) 1 output

-- Both streams have been given back from their copies and the copies closed: each is what it was, or
-- the `_dup2` that gives it back has failed, and all other descriptors are those of the table.
abbrev pub GivesBack : (c : Crt) → (ℕ → Option ℕ) → ℕ → ℕ → c.State → c.State → Type 0
GivesBack c t saved_in saved_out s left =
    (a : Option ℕ) × (b : Option ℕ) × (c.table s saved_in ≡ t 0)
    × (c.table s saved_out ≡ t 1)
    × (left ≡ restore c saved_in saved_out s)
    × ((a ≡ t 0) ⊎ ((c.dup2 s saved_in 0).0 ≡ false))
    × ((b ≡ t 1) ⊎ ((c.dup2 (c.dup2 s saved_in 0).1 saved_out 1).0 ≡ false))
    × HasTable c left (bind (bind t 0 a) 1 b)

-- A `_dup2` that may fail.
dup2_any :
    (c : Crt) (law : IsCrt c) (s : c.State) (t : ℕ → Option ℕ)
    → HasTable c s t
    → (from to : ℕ)
    → (v : Option ℕ) × ((v ≡ t from) ⊎ ((c.dup2 s from to).0 ≡ false))
      × HasTable c (c.dup2 s from to).1 (bind t to v)
dup2_any c law s t has from to = elim (Bool-cases (c.dup2 s from to).0) [
  | inl good ↦ (t from, inl refl, dup2-HasTable c law s t has from to good)
  | inr bad ↦
      let kept = dup2_false-HasTable c law s t has from to bad in
      (t to, inr bad, λ m. kept m ∙ ground arith)
]

module _ (c : Crt) (law : IsCrt c) (t : ℕ → Option ℕ) (i o saved_in saved_out : ℕ)
    (is_in : t 0 ≡ some i) (is_out : t 1 ≡ some o) (fresh_in : t saved_in ≡ none)
    (fresh_out : t saved_out ≡ none) (apart : saved_in ≢ saved_out) where
  -- Both `_dup2` back, whether they fail or not.
  pub restore-GivesBack :
      (s : c.State) (input output : Option ℕ)
      → HasTable c s (busy t saved_in saved_out input output)
      → GivesBack c t saved_in saved_out s (restore c saved_in saved_out s)
  unfolding restore
  restore-GivesBack s input output has =
      let t1 = busy t saved_in saved_out input output in
      let saved_i : t1 saved_in ≡ t 0 = ground arith in
      let s1 = (c.dup2 s saved_in 0).1 in
      let (a, first, has1) = dup2_any c law s t1 has saved_in 0 in
      let t2 = bind t1 0 a in
      let saved_o : t2 saved_out ≡ t 1 = ground arith in
      let s2 = (c.dup2 s1 saved_out 1).1 in
      let (b, second, has2) = dup2_any c law s1 t2 has1 saved_out 1 in
      let t3 = bind t2 1 b in
      let has3 = close-HasTable c law s2 t3 has2 saved_in in
      let has4 =
        close-HasTable c law (c.close s2 saved_in) (bind t3 saved_in none) has3 saved_out in
      (
        a,
        b,
        has saved_in ∙ saved_i,
        has saved_out ∙ ground arith,
        refl,
        (elim first [ inl good ↦ inl (good ∙ saved_i) | inr bad ↦ inr bad ]),
        (elim second [ inl good ↦ inl (good ∙ saved_o) | inr bad ↦ inr bad ]),
        λ m. has4 m ∙ ground arith,
      )

pub redirect-HasTable :
    (c : Crt) (law : IsCrt c) (file : Option ℕ) (fd : ℕ) (t : ℕ → Option ℕ) (s : c.State)
    → HasTable c s t
    → (redirect c file fd s).0 ≡ true
    → HasTable c (redirect c file fd s).1 (bind t fd (target t file (t fd)))
unfolding redirect
redirect-HasTable c law none fd t s has good = λ m. has m ∙ ground arith
redirect-HasTable c law (some from) fd t s has good = dup2-HasTable c law s t has from fd good

pub unredirected_stream-HasTable :
    (c : Crt) (law : IsCrt c) (file : Option ℕ) (fd : ℕ) (t : ℕ → Option ℕ) (s : c.State)
    → HasTable c s t
    → (redirect c file fd s).0 ≡ false
    → HasTable c (redirect c file fd s).1 t
unfolding redirect
unredirected_stream-HasTable c law none fd t s has bad = absurd (ground arith)
unredirected_stream-HasTable c law (some from) fd t s has bad =
    dup2_false-HasTable c law s t has from fd bad

-- A descriptor that was open is still what it was.
pub IsOpen-still :
    (t : ℕ → Option ℕ) (file : Option ℕ) (fd : ℕ) (new : Option ℕ)
    → file ≢ some fd
    → IsOpen t file
    → IsOpen (bind t fd new) file
IsOpen-still t none fd new other h = tt
IsOpen-still t (some from) fd new other (file, e) = (file, ground arith)

pub target_still :
    (t : ℕ → Option ℕ) (file : Option ℕ) (fd : ℕ) (new old : Option ℕ)
    → file ≢ some fd
    → target (bind t fd new) file old ≡ target t file old
target_still t none fd new old other = refl
target_still t (some from) fd new old other = ground arith

not_fresh :
    (t : ℕ → Option ℕ) (file : Option ℕ) (fd : ℕ) → IsOpen t file → t fd ≡ none → file ≢ some fd
not_fresh t none fd is_open fresh = λ e. cc
not_fresh t (some from) fd (file, is_open) fresh = λ e. absurd (ground arith)

-- The table with both streams saved.
abbrev pub saved_table : (ℕ → Option ℕ) → ℕ → ℕ → ℕ → Option ℕ
saved_table t saved_in saved_out = bind (bind t saved_in (t 0)) saved_out (t 1)

module _ (c : Crt) (law : IsCrt c) (t : ℕ → Option ℕ) (i o saved_in saved_out : ℕ)
    (is_in : t 0 ≡ some i) (is_out : t 1 ≡ some o) (fresh_in : t saved_in ≡ none)
    (fresh_out : t saved_out ≡ none) where
  -- What is open before the streams are saved is what it was.
  saved-target :
      (file old : Option ℕ)
      → IsOpen t file
      → IsOpen (saved_table t saved_in saved_out) file
        × (target (saved_table t saved_in saved_out) file old ≡ target t file old)
  saved-target file old is_open =
      let t1 = bind t saved_in (t 0) in
      let not_in = not_fresh t file saved_in is_open fresh_in in
      let not_out = not_fresh t file saved_out is_open fresh_out in
      let open1 = IsOpen-still t file saved_in (t 0) not_in is_open in
      (
        IsOpen-still t1 file saved_out (t 1) not_out open1,
        target_still t1 file saved_out (t 1) old not_out
            ∙ target_still t file saved_in (t 0) old not_in,
      )

  pub input-HasTable :
      (s : c.State) (stdin_file : Option ℕ)
      → HasTable c s (saved_table t saved_in saved_out)
      → IsOpen t stdin_file
      → (redirect c stdin_file 0 s).0 ≡ true
      → HasTable c
          (redirect c stdin_file 0 s).1
          (bind (saved_table t saved_in saved_out) 0 (target t stdin_file (t 0)))
  input-HasTable s stdin_file has is_open good =
      let t0 = saved_table t saved_in saved_out in
      let (still, same) = saved-target stdin_file (t 0) is_open in
      let has1 = redirect-HasTable c law stdin_file 0 t0 s has good in
      let old : t0 0 ≡ t 0 = ground arith in
      λ m.
        has1 m
        ∙ ap (λ (v : Option ℕ). bind t0 0 (target t0 stdin_file v) m) old
        ∙ ap (λ (v : Option ℕ). bind t0 0 v m) same

  pub output-HasTable :
      (s : c.State) (stdout_file input : Option ℕ)
      → HasTable c s (bind (saved_table t saved_in saved_out) 0 input)
      → IsOpen t stdout_file
      → stdout_file ≢ some 0
      → (redirect c stdout_file 1 s).0 ≡ true
      → HasTable c
          (redirect c stdout_file 1 s).1
          (busy t saved_in saved_out input (target t stdout_file (t 1)))
  output-HasTable s stdout_file input has is_open other good =
      let t0 = saved_table t saved_in saved_out in
      let t1 = bind t0 0 input in
      let (still, same) = saved-target stdout_file (t 1) is_open in
      let has1 = redirect-HasTable c law stdout_file 1 t1 s has good in
      let old : t1 1 ≡ t 1 = ground arith in
      λ m.
        has1 m
        ∙ ap (λ (v : Option ℕ). bind t1 1 (target t1 stdout_file v) m) old
        ∙ ap (λ (v : Option ℕ). bind t1 1 v m)
            (target_still t0 stdout_file 0 input (t 1) other ∙ same)

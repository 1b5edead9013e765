-- ===== src/Windows.antt =====
-- What the Windows branches of the C tools take from the C runtime and the system: the table of
-- descriptors, the conversion of text, and the programs that are started. All of it is a parameter.
pub mod Tables
use hermetic_llvm.Prelude.{
  ℕ, ◌≡◌, Bool, true, false, Option, none, some, List, [], ◌∷◌, ◌==◌, if◌then◌else◌,
}
use hermetic_llvm.Bytes.{Bytes}

-- The table of descriptors over an unknown state. A descriptor is 0 for the standard input, 1 for the
-- standard output; a file is a number.
pub record Crt : Type 1 where
  pub State : Type 0
  -- the file that a descriptor refers to, where it is open
  pub table : State → ℕ → Option ℕ
  -- `_dup`: `none` stands for -1
  pub dup : State → ℕ → Option ℕ × State
  -- `_dup2` from one descriptor to another: whether it returns 0
  pub dup2 : State → ℕ → ℕ → Bool × State
  pub close : State → ℕ → State

-- A table in which a descriptor refers to another file.
abbrev pub bind : (ℕ → Option ℕ) → ℕ → Option ℕ → ℕ → Option ℕ
bind t fd file m = if m == fd then file else t m

-- What is documented of these functions. `_dup` and `_dup2` may fail, and then leave
-- the table as it was.
pub record IsCrt (c : Crt) : Type 0 where
  -- a new descriptor was closed before, and refers to the file of the old one, which is open
  pub dup-fresh : (s : c.State) (fd n : ℕ) → (c.dup s fd).0 ≡ some n → c.table s n ≡ none
  pub dup-bind :
      (s : c.State) (fd n m : ℕ)
      → (c.dup s fd).0 ≡ some n
      → c.table (c.dup s fd).1 m ≡ bind (c.table s) n (c.table s fd) m
  pub dup-same :
      (s : c.State) (fd m : ℕ) → (c.dup s fd).0 ≡ none → c.table (c.dup s fd).1 m ≡ c.table s m
  pub dup2-bind :
      (s : c.State) (from to m : ℕ)
      → (c.dup2 s from to).0 ≡ true
      → c.table (c.dup2 s from to).1 m ≡ bind (c.table s) to (c.table s from) m
  pub dup2-same :
      (s : c.State) (from to m : ℕ)
      → (c.dup2 s from to).0 ≡ false
      → c.table (c.dup2 s from to).1 m ≡ c.table s m
  pub close-bind : (s : c.State) (fd m : ℕ) → c.table (c.close s fd) m ≡ bind (c.table s) fd none m

-- `MultiByteToWideChar` for its two calls, and the programs: `_wspawnv` with what the standard input
-- and output of the child are, and `_cwait`; `none` stands for -1.
pub record Host : Type 0 where
  pub wide_length : Bytes → ℕ
  pub to_wide : Bytes → Option Bytes
  pub spawns : List Bytes → Option ℕ → Option ℕ → Option ℕ
  pub waits : ℕ → Option ℕ
  -- `_spawnv` with `_P_WAIT`: the status of the child
  pub runs : List Bytes → Option ℕ → Option ℕ → Option ℕ

-- What a call of `run` comes to: its value, the state that it leaves, and the child that it has tried
-- to start: its arguments and its standard input and output.
pub record Execution (S : Type 0) : Type 0 where
  pub value : Bool
  pub left : S
  pub child : Option (List Bytes × Option ℕ × Option ℕ)

-- The value for a child that exists: it is awaited and has ended with 0.
abbrev pub ends_well : Host → Option ℕ → Bool
ends_well host none = false
ends_well host (some child) = elim (host.waits child) [ none ↦ false | some status ↦ status == 0 ]

-- The loop that converts the arguments: `none` where one argument cannot be converted.
unfoldable pub wide_arguments : (Bytes → Option Bytes) → List Bytes → Option (List Bytes)
wide_arguments widen [] = some []
wide_arguments widen (arg ∷ args) =
    let others = wide_arguments widen args in
    elim (widen arg) [
      | none ↦ none
      | some wide ↦ elim others [ none ↦ none | some rest ↦ some (wide ∷ rest) ]
    ]

-- ===== src/LinkWrapper.antt =====
-- tools/internal/link_wrapper.c: the processes that it starts, and the environment that it reads.
-- The files and the commands that were started are an explicit world; what the operating system
-- and the programs do is a parameter.
pub mod Waiting
pub mod WindowsProcess
pub mod CopyFile
pub mod Versions
pub mod Interface
use hermetic_llvm.Processes.{ChildStatus, exited, signalled, neither}
use hermetic_llvm.Bytes.{Bytes, is_empty}
use hermetic_llvm.Prelude.{
  ℕ, zero, suc, ◌+◌, Bool, true, false, not, ◌&&◌, Option, none, some, List, [], ◌∷◌, ◌++◌,
  if◌then◌else◌,
}

-- The contents of the files, and the commands that were started, the first one first.
pub record World : Type 0 where
  pub files : Bytes → Option Bytes
  pub ran : List (List Bytes)

-- What one call of `waitpid` answers: -1 with `EINTR`, -1 with another error, or the child.
pub data Wait : Type 0 where
  interrupted broken reaped : Wait

-- What a program that is executed leaves: its status, the files, and what it has printed.
pub record Effect : Type 0 where
  pub ending : ChildStatus
  pub left : Bytes → Option Bytes
  pub output : Bytes

-- The environment, and what the system answers to a command in a world.
pub record System : Type 0 where
  pub getenv : Bytes → Option Bytes
  pub forks : List Bytes → World → Bool
  pub execs : List Bytes → World → Bool
  pub redirects : List Bytes → World → Bool
  pub program : List Bytes → World → Effect
  -- the answers of the successive calls of `waitpid`
  pub waits : List Bytes → World → ℕ → Wait

-- How a call comes back: with a value, by `exit`, or not yet, where the fuel has run out while the
-- process waits.
pub data Result (A : Type 0) : Type 0 where
  returned : A → World → Result A
  exit : ℕ → World → Result A
  waiting : World → Result A

abbrev pub Run : Type 0 → Type 0
Run A = World → Result A

abbrev pub pure : {A : Type 0} → A → Run A
pure a w = returned a w

infixl 5 ◌>>=◌
abbrev pub ◌>>=◌ : {A B : Type 0} → Run A → (A → Run B) → Run B
◌>>=◌ m f w = elim (m w) [
  | returned a w' ↦ f a w'
  | exit n w' ↦ exit n w'
  | waiting w' ↦ waiting w'
]

-- The loop around `waitpid` from the call `n` on: whether the child was reaped.
unfoldable pub wait_loop : ℕ → (ℕ → Wait) → ℕ → Option Bool
wait_loop zero answers n = none
wait_loop (suc fuel) answers n =
    let again = wait_loop fuel answers (suc n) in
    elim (answers n) [ interrupted ↦ again | broken ↦ some false | reaped ↦ some true ]

-- The status that is returned for a child.
unfoldable pub exit_status : ChildStatus → ℕ
exit_status (exited status) = status
exit_status (signalled signal) = 128 + signal
exit_status neither = 127

-- The world in which the parent goes on.
unfoldable pub after : List Bytes → (Bytes → Option Bytes) → World → World
after args left w = record { files = left; ran = w.ran ++ args ∷ [] }

-- What the child does: it executes the program, or ends with 127.
unfoldable pub child : Bool → System → List Bytes → World → Effect
child ready sys args w =
    if ready && sys.execs args w
    then sys.program args w
    else record { ending = exited 127; left = w.files; output = [] }

-- The parent, from `fork` on.
unfoldable pub spawn : ℕ → Bool → System → List Bytes → World → Result (ℕ × Bytes)
spawn fuel ready sys args w =
    if not (sys.forks args w)
    then returned (127, []) w
    else (let effect = child ready sys args w in
        let w' = after args effect.left w in
        elim (wait_loop fuel (sys.waits args w) 0) [
          | none ↦ waiting w'
          | some false ↦ returned (127, effect.output) w'
          | some true ↦ returned (exit_status effect.ending, effect.output) w'
        ])

unfoldable pub run_process : ℕ → System → List Bytes → World → Result ℕ
run_process fuel sys args w = elim (spawn fuel true sys args w) [
  | returned ended w' ↦ returned ended.0 w'
  | exit n w' ↦ exit n w'
  | waiting w' ↦ waiting w'
]

-- With the output on the stream `output`, whose text is returned beside the status.
unfoldable pub run_process_with_stdout : ℕ → System → List Bytes → Run (ℕ × Bytes)
run_process_with_stdout fuel sys args w = spawn fuel (sys.redirects args w) sys args w

-- A value that is set and not empty.
abbrev pub set_env : System → Bytes → Option Bytes
set_env sys name = elim (sys.getenv name) [
  | none ↦ none
  | some value ↦ if is_empty value then none else some value
]

unfoldable pub required_env : System → Bytes → Run Bytes
required_env sys name w = elim (set_env sys name) [
  | none ↦ exit 127 w
  | some value ↦ returned value w
]

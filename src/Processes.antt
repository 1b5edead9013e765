-- ===== src/Processes.antt =====
-- A child process, as the C tools that read what llvm-nm prints see it.
use hermetic_llvm.Bytes.{Bytes}
use hermetic_llvm.Prelude.{ℕ, Bool, false, ◌==◌}

-- How a child has ended, as `WIFEXITED` and `WIFSIGNALED` tell it.
pub data ChildStatus : Type 0 where
  exited signalled : ℕ → ChildStatus
  neither : ChildStatus

-- What the system answers to one call of `run`: whether `fork`, the `dup2` of the output, `execv` and
-- `waitpid` succeed, and what the executed program does with its output and how it ends.
pub record Process : Type 0 where
  pub forks : Bool
  pub redirects_output : Bool
  pub execs : Bool
  pub output : Bytes
  pub ending : ChildStatus
  pub waits : Bool

-- `WIFEXITED(status) && WEXITSTATUS(status) == 0`.
abbrev pub is_success : ChildStatus → Bool
is_success (exited status) = status == 0
is_success _ = false

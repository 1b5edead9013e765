-- ===== src/LinkWrapper/Waiting.antt =====
-- The loop around `waitpid`, and what a process that is awaited returns.
use hermetic_llvm.Bytes.{Bytes}
use hermetic_llvm.LinkWrapper.{
  Wait, wait_loop, run_process, spawn, reaped, interrupted, System, World, returned, exit_status,
  child, after,
}
use hermetic_llvm.Prelude.{
  ℕ, zero, suc, ◌+◌, ◌≤◌, ◌<◌, ◌≡◌, sym, ap, subst, ◌∙◌, ◌≢◌, inl, inr, Bool, true, false, some,
  List, arith, ltb, if◌then◌else◌, Bool-cases,
}

abbrev pub is_reaped : Wait → Bool
is_reaped reaped = true
is_reaped _ = false

wait_loop_here :
    (fuel n : ℕ) (answers : ℕ → Wait)
    → answers n ≢ interrupted
    → wait_loop (suc fuel) answers n ≡ some (is_reaped (answers n))
unfolding wait_loop
wait_loop_here fuel n answers h = ground arith

pub wait_loop_lem :
    (fuel n m : ℕ) (answers : ℕ → Wait)
    → n ≤ m
    → m < n + fuel
    → ((i : ℕ) → i < m → answers i ≡ interrupted)
    → answers m ≢ interrupted
    → wait_loop fuel answers n ≡ some (is_reaped (answers m))
unfolding wait_loop
wait_loop_lem zero n m answers h k before last = absurd (omega arith)
wait_loop_lem (suc fuel) n m answers h k before last = elim (Bool-cases (ltb n m)) [
  | inl less ↦
      let again = wait_loop_lem fuel (suc n) m answers (ground arith) (omega arith) before last in
      let here : answers n ≡ interrupted = before n (ground arith) in rw (here, wait_loop) again
  | inr reached ↦
      let same : n ≡ m = ground arith in
      subst (λ k. wait_loop (suc fuel) answers n ≡ some (is_reaped (answers k))) same
        (wait_loop_here fuel n answers (λ e. last (ap answers (sym same) ∙ e)))
]

-- Where `fork` succeeds and `waitpid` is interrupted finitely often, fewer times than the fuel,
-- `run_process` returns: the status of the child where it was reaped, and 127 where `waitpid` fails.
run_process_returns :
    (fuel : ℕ) (sys : System) (args : List Bytes) (w : World) (m : ℕ)
    → sys.forks args w ≡ true
    → m < fuel
    → ((i : ℕ) → i < m → sys.waits args w i ≡ interrupted)
    → sys.waits args w m ≢ interrupted
    → run_process fuel sys args w
      ≡ returned
          (if is_reaped (sys.waits args w m)
            then exit_status (child true sys args w).ending
            else 127)
          (after args (child true sys args w).left w)
unfolding run_process spawn
run_process_returns fuel sys args w m f h before last =
    let ended = wait_loop_lem fuel 0 m (sys.waits args w) (omega arith) (omega arith) before last in
    ground (arith, ended)

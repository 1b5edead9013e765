-- ===== src/LinkWrapper/Interface/Ends.antt =====
-- A run of the wrapper ends where `waitpid` comes back for every command.
use hermetic_llvm.LinkWrapper.Waiting.{wait_loop_lem, is_reaped}
use hermetic_llvm.Bytes.{Bytes, codes}
use hermetic_llvm.LinkWrapper.{
  Result, System, Run, required_env, World, waiting, set_env, spawn, run_process, ◌>>=◌,
  interrupted, pure, returned, exit,
}
use hermetic_llvm.LinkWrapper.Interface.{
  Limits, Machine, dsym_at, unless_failed, make_dsym, strip_wanted, dsym_args, strip_output,
  strip_args,
}
use hermetic_llvm.Prelude.{
  ℕ, ◌<◌, ◌≡◌, refl, ◌≢◌, inl, inr, Bool, true, false, List, arith, ◌==◌, if◌then◌else◌, Bool-cases,
  Option-cases,
}

abbrev pub is_waiting : {A : Type 0} → Result A → Bool
is_waiting (waiting w) = true
is_waiting _ = false

-- For every command, `waitpid` is interrupted finitely often, fewer times than the fuel.
abbrev pub Settles : ℕ → System → Type 0
Settles fuel sys =
    (args : List Bytes) (w : World)
    → (n : ℕ) × (n < fuel)
      × ((i : ℕ) → i < n → sys.waits args w i ≡ interrupted)
      × (sys.waits args w n ≢ interrupted)

pub bind_ends :
    {A B : Type 0} (m : Run A) (f : A → Run B) (w : World)
    → is_waiting (m w) ≡ false
    → ((a : A) (w' : World) → is_waiting (f a w') ≡ false)
    → is_waiting ((m >>= f) w) ≡ false
bind_ends {A} {B} m f w h n = go (m w) h
  where
    go :
        (r : Result A)
        → is_waiting r ≡ false
        → is_waiting (elim r as (λ _. Result B) [
          | returned a w' ↦ f a w'
          | exit n w' ↦ exit n w'
          | waiting w' ↦ waiting w'
        ])
          ≡ false
    go (returned a w') k = n a w'
    go (exit c w') k = refl
    go (waiting w') k = k

pub required_env_ends :
    (sys : System) (name : Bytes) (w : World) → is_waiting (required_env sys name w) ≡ false
unfolding required_env
required_env_ends sys name w = elim (Option-cases (set_env sys name)) [
  | inl unset ↦ rw (required_env, unset) refl
  | inr (v, found) ↦ rw (required_env, found) refl
]

pub unless_failed_ends :
    (first next : Run ℕ) (w : World)
    → is_waiting (first w) ≡ false
    → ((w' : World) → is_waiting (next w') ≡ false)
    → is_waiting (unless_failed first next w) ≡ false
unless_failed_ends first next w h n =
    bind_ends first (λ status. if status == 0 then next else pure status) w h
      (λ status w'. elim (Bool-cases (status == 0)) [ inl y ↦ rw y (n w') | inr bad ↦ rw bad refl ])

module _ (l : Limits) (m : Machine) (settles : Settles l.fuel m.sys) where
  pub spawn_ends :
      (ready : Bool) (args : List Bytes) (w : World)
      → is_waiting (spawn l.fuel ready m.sys args w) ≡ false
  unfolding spawn
  spawn_ends ready args w =
      let (n, h, before, last) = settles args w in
      let came =
        wait_loop_lem l.fuel 0 n (m.sys.waits args w) (omega arith) (omega arith) before last in
      elim (Bool-cases (m.sys.forks args w)) [
        | inr no_child ↦ rw (spawn, no_child) refl
        | inl child_runs ↦ elim (Bool-cases (is_reaped (m.sys.waits args w n))) [
          | inl y ↦ rw (spawn, child_runs, came, y) refl
          | inr bad ↦ rw (spawn, child_runs, came, bad) refl
        ]
      ]

  pub run_process_ends :
      (args : List Bytes) (w : World) → is_waiting (run_process l.fuel m.sys args w) ≡ false
  unfolding run_process
  run_process_ends args w = go (spawn l.fuel true m.sys args w) (spawn_ends true args w)
    where
      go :
          (r : Result (ℕ × Bytes))
          → is_waiting r ≡ false
          → is_waiting (elim r as (λ _. Result ℕ) [
            | returned ended w' ↦ returned ended.0 w'
            | exit n w' ↦ exit n w'
            | waiting w' ↦ waiting w'
          ])
            ≡ false
      go (returned ended w') h = refl
      go (exit n w') h = refl
      go (waiting w') h = h

  -- A command whose program the environment names.
  pub tool_ends :
      (name : Bytes) (command : Bytes → List Bytes) (w : World)
      → is_waiting ((required_env m.sys name >>= λ tool. run_process l.fuel m.sys (command tool)) w)
        ≡ false
  tool_ends name command w =
      bind_ends (required_env m.sys name) (λ tool. run_process l.fuel m.sys (command tool)) w
        (required_env_ends m.sys name w) (λ tool w'. run_process_ends (command tool) w')

  strip_wanted_ends :
      (link_output : Bytes) (w : World) → is_waiting (strip_wanted l m link_output w) ≡ false
  unfolding strip_wanted strip_output
  strip_wanted_ends link_output w =
      elim (Option-cases (set_env m.sys (codes "LLVM_STRIP_DEBUG_SYMBOLS"))) [
        | inl unset ↦ rw (strip_wanted, unset) refl
        | inr (v, found) ↦
            rw (strip_wanted, found)
              (tool_ends (codes "LLVM_STRIP") (λ strip. strip_args strip link_output) w)
      ]

  dsym_at_ends : (path : Bytes) (w : World) → is_waiting (dsym_at l m path w) ≡ false
  unfolding dsym_at
  dsym_at_ends path w =
      let start = λ (out tool : Bytes).
        unless_failed (run_process l.fuel m.sys (dsym_args tool path out)) (strip_wanted l m out) in
      bind_ends (required_env m.sys (codes "LLVM_LINK_OUTPUT"))
        (λ out. required_env m.sys (codes "LLVM_DSYMUTIL") >>= start out) w
        (required_env_ends m.sys (codes "LLVM_LINK_OUTPUT") w)
        (λ out w'.
          bind_ends (required_env m.sys (codes "LLVM_DSYMUTIL")) (start out) w'
            (required_env_ends m.sys (codes "LLVM_DSYMUTIL") w')
            (λ tool w''.
              unless_failed_ends (run_process l.fuel m.sys (dsym_args tool path out))
                (strip_wanted l m out) w'' (run_process_ends (dsym_args tool path out) w'')
                (strip_wanted_ends out)))

  pub make_dsym_ends : (w : World) → is_waiting (make_dsym l m w) ≡ false
  unfolding make_dsym
  make_dsym_ends w = elim (Option-cases (set_env m.sys (codes "LLVM_DSYM_PATH"))) [
    | inl unset ↦ rw (make_dsym, unset) refl
    | inr (path, found) ↦ rw (make_dsym, found) (dsym_at_ends path w)
  ]

-- ===== src/LinkWrapper/Interface/Started.antt =====
-- The commands of tools/internal/link_wrapper.c: a plan that a run goes through in order.
use hermetic_llvm.LinkWrapper.Interface.{unless_failed}
use hermetic_llvm.Bytes.{Bytes}
use hermetic_llvm.LinkWrapper.{
  World, after, System, spawn, run_process, required_env, set_env, Result, returned, Run, ◌>>=◌,
  waiting, exit, pure, child, wait_loop, exit_status,
}
use hermetic_llvm.Prelude.{
  ℕ, ◌≡◌, refl, sym, ap, subst, ◌∙◌, ◌≢◌, ◌⊎◌, inl, inr, Bool, true, false, Option, none, some,
  List, [], ◌∷◌, ◌++◌, append-nil, append_assoc, arith, ◌==◌, if◌then◌else◌, Bool-cases,
  Option-cases,
}

-- How a call that began in `w` has gone through the commands of a plan: those that it has started
-- are the first ones of the plan, and all of them where it returns 0.
abbrev pub StartedBy : {A : Type 0} → (A → ℕ) → List (List Bytes) → World → Result A → Type 0
StartedBy status plan w (returned a w') =
    (rest : List (List Bytes)) × (w'.ran ++ rest ≡ w.ran ++ plan) × (status a ≡ 0 → rest ≡ [])
StartedBy status plan w (exit code w') =
    (rest : List (List Bytes)) × (w'.ran ++ rest ≡ w.ran ++ plan) × (code ≢ 0)
StartedBy status plan w (waiting w') = (rest : List (List Bytes)) × (w'.ran ++ rest ≡ w.ran ++ plan)

abbrev pub Started : List (List Bytes) → World → Result ℕ → Type 0
Started plan w r = StartedBy (λ n. n) plan w r

-- What holds of a call that returns 0.
abbrev pub WhenZero : Type 0 → Result ℕ → Type 0
WhenZero P (returned status w') = status ≡ 0 → P
WhenZero P (exit code w') = Unit {0}
WhenZero P (waiting w') = Unit {0}

pub WhenZero-intro : {P : Type 0} (r : Result ℕ) → P → WhenZero P r
WhenZero-intro (returned status w') p = λ z. p
WhenZero-intro (exit code w') p = tt
WhenZero-intro (waiting w') p = tt

pub WhenZero-map : (P Q : Type 0) (r : Result ℕ) → WhenZero P r → WhenZero (Q → P) r
WhenZero-map P Q (returned status w') h = λ z q. h z
WhenZero-map P Q (exit code w') h = tt
WhenZero-map P Q (waiting w') h = tt

-- A value of the environment, or the empty string.
abbrev pub value : System → Bytes → Bytes
value sys name = elim (set_env sys name) [ none ↦ [] | some v ↦ v ]

abbrev pub commands_for : Option Bytes → (Bytes → List (List Bytes)) → List (List Bytes)
commands_for none plan = []
commands_for (some v) plan = plan v

spawn_cases :
    (fuel : ℕ) (ready : Bool) (sys : System) (args : List Bytes) (w : World)
    → (spawn fuel ready sys args w ≡ returned (127, []) w)
      ⊎ ((spawn fuel ready sys args w ≡ waiting (after args (child ready sys args w).left w))
          ⊎ ((ended : ℕ × Bytes) × (spawn fuel ready sys args w
                ≡ returned ended (after args (child ready sys args w).left w))))
unfolding spawn
spawn_cases fuel ready sys args w = elim (Bool-cases (sys.forks args w)) [
  | inl y ↦ elim (Option-cases (wait_loop fuel (sys.waits args w) 0)) [
    | inl out ↦ inr (inl (ground arith))
    | inr (true, got) ↦ inr (
        inr (
          (exit_status (child ready sys args w).ending, (child ready sys args w).output),
          ground arith,
        ))
    | inr (false, got) ↦ inr (inr ((127, (child ready sys args w).output), ground arith))
  ]
  | inr n ↦ inl (ground arith)
]

pub spawn-StartedBy :
    (fuel : ℕ) (ready : Bool) (sys : System) (args : List Bytes) (w : World)
    → StartedBy (λ (e : ℕ × Bytes). e.0) (args ∷ []) w (spawn fuel ready sys args w)
unfolding after
spawn-StartedBy fuel ready sys args w =
    let P = StartedBy (λ (e : ℕ × Bytes). e.0) (args ∷ []) w in
    elim (spawn_cases fuel ready sys args w) [
      | inl e ↦ subst P (sym e) (args ∷ [], refl, λ z. absurd (omega arith))
      | inr (inl e) ↦ subst P (sym e) ([], append-nil _)
      | inr (inr (ended, e)) ↦ subst P (sym e) ([], append-nil _, (λ z. refl))
    ]

pub run_process-Started :
    (fuel : ℕ) (sys : System) (args : List Bytes) (w : World)
    → Started (args ∷ []) w (run_process fuel sys args w)
unfolding run_process
run_process-Started fuel sys args w =
    go (spawn fuel true sys args w) (spawn-StartedBy fuel true sys args w)
  where
    go :
        (r : Result (ℕ × Bytes))
        → StartedBy (λ (e : ℕ × Bytes). e.0) (args ∷ []) w r
        → Started (args ∷ []) w (elim r as (λ _. Result ℕ) [
          | returned ended w' ↦ returned ended.0 w'
          | exit n w' ↦ exit n w'
          | waiting w' ↦ waiting w'
        ])
    go (returned ended w') h = h
    go (exit n w') h = h
    go (waiting w') h = h

-- What follows a call that has gone through `p` goes on from there.
Started-shift :
    (p q : List (List Bytes)) (w w' : World) (r : Result ℕ)
    → w'.ran ≡ w.ran ++ p
    → Started q w' r
    → Started (p ++ q) w r
Started-shift p q w w' (returned status w'') e (rest, g, z) =
    (rest, g ∙ ap (λ l. l ++ q) e ∙ append_assoc w.ran p q, z)
Started-shift p q w w' (exit status w'') e (rest, g, z) =
    (rest, g ∙ ap (λ l. l ++ q) e ∙ append_assoc w.ran p q, z)
Started-shift p q w w' (waiting w'') e (rest, g) =
    (rest, g ∙ ap (λ l. l ++ q) e ∙ append_assoc w.ran p q)

Started-more :
    (p q rest : List (List Bytes)) (w w' : World)
    → w'.ran ++ rest ≡ w.ran ++ p
    → w'.ran ++ (rest ++ q) ≡ w.ran ++ (p ++ q)
Started-more p q rest w w' e =
    sym (append_assoc w'.ran rest q) ∙ ap (λ l. l ++ q) e ∙ append_assoc w.ran p q

abbrev pub continued : Run ℕ → Result ℕ → Result ℕ
continued next r = elim r as (λ _. Result ℕ) [
  | returned status w' ↦ (if status == 0 then next else pure status) w'
  | exit n w' ↦ exit n w'
  | waiting w' ↦ waiting w'
]

followed-Started :
    (p : List (List Bytes)) (q : Bool → List (List Bytes)) (P : Bool → Type 0) (next : Run ℕ)
    (w : World) (r : Result ℕ)
    → Started p w r
    → ((w' : World) → (b : Bool) × Started (q b) w' (next w') × WhenZero (P b) (next w'))
    → (b : Bool) × Started (p ++ q b) w (continued next r) × WhenZero (P b) (continued next r)
followed-Started p q P next w (returned status w') (rest, g, z) n =
    elim (Bool-cases (status == 0)) [
      | inl y ↦
          let none_left : rest ≡ [] = z (ground arith) in
          let (b, h, p_holds) = n w' in
          rw y (
            b,
            Started-shift p (q b) w w' (next w')
                (sym (append-nil w'.ran) ∙ ap (λ l. w'.ran ++ l) (sym none_left) ∙ g) h,
            p_holds,
          )
      | inr bad ↦ rw bad (
        true,
        (
          rest ++ q true,
          Started-more p (q true) rest w w' g,
          (λ zero_status. absurd (ground arith)),
        ),
        (λ zero_status. absurd (ground arith)),
      )
    ]
followed-Started p q P next w (exit status w') (rest, g, z) n =
    (true, (rest ++ q true, Started-more p (q true) rest w w' g, z), tt)
followed-Started p q P next w (waiting w') (rest, g) n =
    (true, (rest ++ q true, Started-more p (q true) rest w w' g), tt)

pub bind-Started :
    (p q : List (List Bytes)) (next : Run ℕ) (w : World) (r : Result ℕ)
    → Started p w r
    → ((w' : World) → Started q w' (next w'))
    → Started (p ++ q) w (elim r as (λ _. Result ℕ) [
      | returned status w' ↦ (if status == 0 then next else pure status) w'
      | exit n w' ↦ exit n w'
      | waiting w' ↦ waiting w'
    ])
bind-Started p q next w r h n =
    let goes_on =
      followed-Started p (λ _. q) (λ _. Unit {0}) next w r h
        (λ w'. (true, n w', WhenZero-intro (next w') tt)) in
    goes_on.1

pub unless_failed-Started :
    (p q : List (List Bytes)) (first next : Run ℕ) (w : World)
    → Started p w (first w)
    → ((w' : World) → Started q w' (next w'))
    → Started (p ++ q) w (unless_failed first next w)
unless_failed-Started p q first next w f n = bind-Started p q next w (first w) f n

-- The plan of the second call may depend on what that call finds.
pub unless_failed_some :
    (p : List (List Bytes)) (q : Bool → List (List Bytes)) (P : Bool → Type 0) (first next : Run ℕ)
    (w : World)
    → Started p w (first w)
    → ((w' : World) → (b : Bool) × Started (q b) w' (next w') × WhenZero (P b) (next w'))
    → (b : Bool) × Started (p ++ q b) w (unless_failed first next w)
      × WhenZero (P b) (unless_failed first next w)
unless_failed_some p q P first next w f n = followed-Started p q P next w (first w) f n

pub required_env-StartedBy :
    {A : Type 0} (f : A → ℕ) (plan : List (List Bytes)) (sys : System) (name : Bytes)
    (next : Bytes → Run A) (w : World)
    → StartedBy f plan w (next (value sys name) w)
    → StartedBy f plan w ((required_env sys name >>= next) w)
unfolding required_env
required_env-StartedBy {A} f plan sys name next w h = go (set_env sys name) refl
  where
    go :
        (o : Option Bytes)
        → set_env sys name ≡ o
        → StartedBy f plan w (
            ◌>>=◌ {A = Bytes} {B = A}
              (λ w'. elim o as (λ _. Result Bytes) [ none ↦ exit 127 w' | some v ↦ returned v w' ])
              next
              w)
    go none e = (plan, refl, (λ z. absurd (omega arith)))
    go (some v) e =
        let same : value sys name ≡ v =
          ap (λ (o : Option Bytes). elim o as (λ _. Bytes) [ none ↦ [] | some v ↦ v ]) e in
        subst (λ u. StartedBy f plan w (next u w)) same h

pub required_env-Started :
    (plan : List (List Bytes)) (sys : System) (name : Bytes) (next : Bytes → Run ℕ) (w : World)
    → Started plan w (next (value sys name) w)
    → Started plan w ((required_env sys name >>= next) w)
required_env-Started plan sys name next w h = required_env-StartedBy (λ n. n) plan sys name next w h

pub required_env-WhenZero :
    (P : Type 0) (sys : System) (name : Bytes) (next : Bytes → Run ℕ) (w : World)
    → WhenZero P (next (value sys name) w)
    → WhenZero P ((required_env sys name >>= next) w)
unfolding required_env
required_env-WhenZero P sys name next w h = go (set_env sys name) refl
  where
    go :
        (o : Option Bytes)
        → set_env sys name ≡ o
        → WhenZero P (
            ◌>>=◌ {A = Bytes} {B = ℕ}
              (λ w'. elim o as (λ _. Result Bytes) [ none ↦ exit 127 w' | some v ↦ returned v w' ])
              next
              w)
    go none e = tt
    go (some v) e =
        let same : value sys name ≡ v =
          ap (λ (o : Option Bytes). elim o as (λ _. Bytes) [ none ↦ [] | some v ↦ v ]) e in
        subst (λ u. WhenZero P (next u w)) same h

pub pure_zero-Started : (w : World) → Started [] w (returned 0 w)
pure_zero-Started w = ([], refl, (λ z. refl))

pub option-Started :
    (o : Option Bytes) (plan : Bytes → List (List Bytes)) (next : Bytes → Run ℕ) (w : World)
    → ((v : Bytes) → Started (plan v) w (next v w))
    → Started
        (commands_for o plan)
        w
        ((elim o as (λ _. Run ℕ) [ none ↦ pure 0 | some v ↦ next v ]) w)
option-Started none plan next w h = pure_zero-Started w
option-Started (some v) plan next w h = h v

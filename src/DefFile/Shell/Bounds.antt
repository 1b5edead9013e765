-- ===== src/DefFile/Shell/Bounds.antt =====
-- The decoded argument fits in the entry that it overwrites.
use hermetic_llvm.Bytes.{Bytes}
use hermetic_llvm.DefFile.Shell.{
  finish, shell_loop, Action, step_in, Shell, Decoded, Quote, argument, Error, stop, step_word,
  unquoted, single, failed, next, double, escape, shell_step, decode_shell_argument, initial, push,
}
use hermetic_llvm.Prelude.{
  ℕ, suc, ◌+◌, ◌≤◌, ◌≡◌, refl, ap, subst, ◌⊎◌, inl, inr, [], ◌∷◌, arith, length, length-append,
}

-- What a byte adds to the output: at most itself, and an escape adds nothing yet.
abbrev Grows : Shell → Action → Type 0
Grows s (stop _) = Unit
Grows s (next s') = length s'.output ≤ suc (length s.output)
Grows s (escape s') = s'.output ≡ s.output

step-Grows : (q : Quote) (s : Shell) (c : ℕ) → Grows s (step_in q s c)
unfolding step_in step_word
step-Grows single s c = ground (arith, length-append s.output (c ∷ []))
step-Grows double s c = ground (arith, length-append s.output (c ∷ []))
step-Grows unquoted s c = ground (arith, length-append s.output (c ∷ []))

abbrev Fits : ℕ → Decoded → Type 0
Fits n (argument a) = length a ≤ n
Fits n (failed _) = Unit

end-Fits : (q : Quote) (s : Shell) (n : ℕ) → length s.output ≤ n → Fits n (finish q s)
unfolding finish
end-Fits unquoted s n h = ground arith
end-Fits single s n h = tt
end-Fits double s n h = tt

pub Action-cases :
    (a : Action)
    → ((e : Error) × (a ≡ stop e)) ⊎ ((s : Shell) × (a ≡ next s)) ⊎ ((s : Shell) × (a ≡ escape s))
Action-cases (stop e) = inl (e, refl)
Action-cases (next s) = inr (inl (s, refl))
Action-cases (escape s) = inr (inr (s, refl))

loop-Fits :
    (text : Bytes) (s : Shell) (n : ℕ)
    → length s.output + length text ≤ n
    → Fits n (shell_loop s text)
unfolding shell_loop
loop-Fits [] s n h = end-Fits s.quote s n (omega arith)
loop-Fits (c ∷ []) s n h = elim (Action-cases (shell_step s c)) [
  | inl (e, q) ↦ rw (q, shell_loop) tt
  | inr (inl (s', q)) ↦
      let grows : Grows s (next s') = rw q at (step-Grows s.quote s c) in
      rw (q, shell_loop) (end-Fits s'.quote s' n (omega arith))
  | inr (inr (s', q)) ↦ rw (q, shell_loop) tt
]
loop-Fits (c ∷ d ∷ rest) s n h = elim (Action-cases (shell_step s c)) [
  | inl (e, q) ↦ rw (q, shell_loop) tt
  | inr (inl (s', q)) ↦
      let grows : Grows s (next s') = rw q at (step-Grows s.quote s c) in
      rw (q, shell_loop) (loop-Fits (d ∷ rest) s' n (omega arith))
  | inr (inr (s', q)) ↦
      let same : Grows s (escape s') = rw q at (step-Grows s.quote s c) in
      let size = ap length same in
      rw (q, shell_loop)
        (loop-Fits rest (push s' d) n (omega (arith, length-append s'.output (d ∷ []))))
]

-- What `decode_shell_argument` writes over an entry is never longer than the entry, so the
-- argument and its terminating zero stay inside the entry's storage.
pub decode_shell_argument-le :
    (value a : Bytes) → decode_shell_argument value ≡ argument a → length a ≤ length value
unfolding decode_shell_argument
decode_shell_argument-le value a e =
    subst (Fits (length value)) e (loop-Fits value initial (length value) (omega arith))

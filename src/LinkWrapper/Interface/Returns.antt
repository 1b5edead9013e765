-- ===== src/LinkWrapper/Interface/Returns.antt =====
-- The interface library, and the whole run, end.
use hermetic_llvm.LinkWrapper.Versions.Laws.{scan_output_ends}
use hermetic_llvm.LinkWrapper.CopyFile.Laws.{copy_file_ends}
use hermetic_llvm.LinkWrapper.{
  World, run_process_with_stdout, run_process, pure, Result, returned, required_env, exit, ◌>>=◌,
  waiting, spawn,
}
use hermetic_llvm.LinkWrapper.Versions.{
  scan_ended, scan_library, has_versioned_symbols, scan_output, nm_args,
}
use hermetic_llvm.Bytes.{Bytes, codes, str_eq}
use hermetic_llvm.LinkWrapper.Interface.{
  main, Limits, Machine, generate_elf, elf_scanned, make_interface, copy_action,
  generate_interface_library, generate_tbd, interface_wanted, readtapi_args, wants_interface,
  unless_failed, ifs_args, make_dsym,
}
use hermetic_llvm.LinkWrapper.Interface.Ends.{
  is_waiting, Settles, bind_ends, required_env_ends, unless_failed_ends, spawn_ends, tool_ends,
  run_process_ends, make_dsym_ends,
}
use hermetic_llvm.Prelude.{
  ℕ, suc, ◌-◌, ◌<◌, ◌≡◌, refl, sym, ap, ◌∙◌, inl, inr, Bool, true, false, some, List, ◌∷◌, arith,
  ◌==◌, if◌then◌else◌, Bool-cases,
}

module _ (l : Limits) (m : Machine) (settles : Settles l.fuel m.sys) (some_room : 0 < l.room)
    (some_chunk : 0 < l.chunk) where
  scan_ended_ends :
      (ended : ℕ × Bytes) (w : World) → is_waiting (scan_ended l.room m.temporary ended w) ≡ false
  unfolding scan_ended
  scan_ended_ends (status, output) w =
      let same : suc (l.room - 1) ≡ l.room = omega arith in
      let (r, e) = scan_output_ends (l.room - 1) m.temporary output in
      let came : scan_output l.room m.temporary output ≡ some r =
        ap (λ room. scan_output room m.temporary output) (sym same) ∙ e in
      elim (Bool-cases (status == 0)) [
        | inl y ↦ rw (scan_ended, y, came) refl
        | inr bad ↦ rw (scan_ended, bad) refl
      ]

  scan_library_ends :
      (path llvm_nm : Bytes) (w : World)
      → is_waiting (scan_library l.fuel l.room m.sys m.temporary path llvm_nm w) ≡ false
  unfolding scan_library run_process_with_stdout
  scan_library_ends path llvm_nm w = elim (Bool-cases m.temporary.creates) [
    | inr bad ↦ rw bad refl
    | inl y ↦
        let args = nm_args llvm_nm path in
        let ready = m.sys.redirects args w in
        rw y (go (spawn l.fuel ready m.sys args w) (spawn_ends l m settles ready args w))
  ]
    where
      go :
          (r : Result (ℕ × Bytes))
          → is_waiting r ≡ false
          → is_waiting (elim r as (λ _. Result (ℕ × Bool)) [
            | returned ended w' ↦ scan_ended l.room m.temporary ended w'
            | exit n w' ↦ exit n w'
            | waiting w' ↦ waiting w'
          ])
            ≡ false
      go (returned ended w') h = scan_ended_ends ended w'
      go (exit n w') h = refl
      go (waiting w') h = h

  copy_action_ends :
      (source destination : Bytes) (w : World)
      → is_waiting (copy_action l m source destination w) ≡ false
  unfolding copy_action
  copy_action_ends source destination w =
      let (r, e) = copy_file_ends l.chunk m.streams source destination w.files some_chunk in
      rw (copy_action, e) refl

  elf_scanned_ends :
      (input output : Bytes) (versioned : Bool) (w : World)
      → is_waiting (elf_scanned l m input output versioned w) ≡ false
  unfolding elf_scanned
  elf_scanned_ends input output true w = copy_action_ends input output w
  elf_scanned_ends input output false w =
      tool_ends l m settles (codes "LLVM_IFS") (λ tool. ifs_args tool input output) w

  generate_elf_ends :
      (input output : Bytes) (w : World) → is_waiting (generate_elf l m input output w) ≡ false
  unfolding generate_elf has_versioned_symbols
  generate_elf_ends input output w =
      bind_ends (has_versioned_symbols l.fuel l.room m.sys m.temporary input)
        (λ scanned.
          if scanned.0 == 0 then elf_scanned l m input output scanned.1 else pure scanned.0)
        w
        (bind_ends (required_env m.sys (codes "LLVM_NM"))
          (scan_library l.fuel l.room m.sys m.temporary input) w
          (required_env_ends m.sys (codes "LLVM_NM") w)
          (λ llvm_nm w'. scan_library_ends input llvm_nm w'))
        (λ scanned w'. elim (Bool-cases (scanned.0 == 0)) [
          | inl y ↦ rw y (elf_scanned_ends input output scanned.1 w')
          | inr bad ↦ rw bad refl
        ])

  generate_ends :
      (format input output : Bytes) (w : World)
      → is_waiting (generate_interface_library l m format input output w) ≡ false
  unfolding generate_interface_library generate_tbd
  generate_ends format input output w = elim (Bool-cases (str_eq format (codes "elf"))) [
    | inl elf ↦ rw elf (generate_elf_ends input output w)
    | inr other ↦ elim (Bool-cases (str_eq format (codes "tbd"))) [
      | inl tbd ↦
          rw (other, tbd)
            (tool_ends l m settles (codes "LLVM_READTAPI") (λ tool. readtapi_args tool input output)
              w)
      | inr bad ↦ rw (other, bad) refl
    ]
  ]

  make_interface_ends : (w : World) → is_waiting (make_interface l m w) ≡ false
  unfolding make_interface interface_wanted
  make_interface_ends w =
      let format = codes "LLVM_INTERFACE_LIBRARY_FORMAT" in
      let input = codes "LLVM_INTERFACE_LIBRARY_INPUT" in
      let output = codes "LLVM_INTERFACE_LIBRARY_OUTPUT" in
      let make = generate_interface_library l m in
      elim (Bool-cases (wants_interface m.sys)) [
        | inr n ↦ rw n refl
        | inl y ↦ rw y (
            bind_ends (required_env m.sys format)
              (λ f. required_env m.sys input >>= λ i. required_env m.sys output >>= λ o. make f i o)
              w (required_env_ends m.sys format w)
              (λ f w1.
                bind_ends (required_env m.sys input)
                  (λ i. required_env m.sys output >>= λ o. make f i o) w1
                  (required_env_ends m.sys input w1)
                  (λ i w2.
                    bind_ends (required_env m.sys output) (λ o. make f i o) w2
                      (required_env_ends m.sys output w2) (λ o w3. generate_ends f i o w3))))
      ]

-- Where every `waitpid` is interrupted finitely often, fewer times than the fuel, and the two buffers
-- have room, a run of the wrapper comes back: no loop runs out of fuel and no process is waited for
-- for ever, whatever the programs do and print.
pub main_ends :
    (l : Limits) (m : Machine) (args : List Bytes) (w : World)
    → Settles l.fuel m.sys
    → 0 < l.room
    → 0 < l.chunk
    → is_waiting (main l m args w) ≡ false
unfolding main
main_ends l m args w settles some_room some_chunk =
    let link = λ (c : Bytes). run_process l.fuel m.sys (c ∷ args) in
    let later = unless_failed (make_dsym l m) (make_interface l m) in
    bind_ends (required_env m.sys (codes "LLVM_CLANGXX")) (λ c. unless_failed (link c) later) w
      (required_env_ends m.sys (codes "LLVM_CLANGXX") w)
      (λ c w1.
        unless_failed_ends (link c) later w1 (run_process_ends l m settles (c ∷ args) w1) (λ w2.
          unless_failed_ends (make_dsym l m) (make_interface l m) w2 (make_dsym_ends l m settles w2)
            (make_interface_ends l m settles some_room some_chunk)))

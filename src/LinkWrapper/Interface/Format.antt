-- ===== src/LinkWrapper/Interface/Format.antt =====
-- The commands of `generate_interface_library` in tools/internal/link_wrapper.c.
use hermetic_llvm.LinkWrapper.CopyFile.{Files, copy_file}
use hermetic_llvm.LinkWrapper.Interface.Started.{
  value, StartedBy, Started, required_env-StartedBy, required_env-Started, bind-Started,
  run_process-Started, spawn-StartedBy, pure_zero-Started, WhenZero, WhenZero-intro, WhenZero-map,
}
use hermetic_llvm.LinkWrapper.Versions.{
  scan_ended, scan_library, has_versioned_symbols, nm_args, scan_output,
}
use hermetic_llvm.Bytes.{Bytes, str_eq, codes}
use hermetic_llvm.LinkWrapper.Interface.{
  Limits, Machine, elf_scanned, wants_interface, copy_action, generate_elf, ifs_args,
  generate_interface_library, generate_tbd, readtapi_args,
}
use hermetic_llvm.LinkWrapper.{
  System, run_process_with_stdout, World, returned, Result, waiting, run_process, exit, pure, spawn,
}
use hermetic_llvm.Prelude.{
  ℕ, ◌≡◌, refl, inl, inr, Bool, true, false, Option, none, some, List, [], ◌∷◌, arith, ◌==◌,
  if◌then◌else◌, Bool-cases, ◌∙◌, ap,
}

-- The commands for the interface library of a library that has versioned symbols, or has none.
abbrev pub format_commands : System → Bool → Bytes → Bytes → Bytes → List (List Bytes)
format_commands sys versioned format input output =
    if str_eq format (codes "elf")
    then nm_args (value sys (codes "LLVM_NM")) input
      ∷ (if versioned then [] else ifs_args (value sys (codes "LLVM_IFS")) input output ∷ [])
    else if str_eq format (codes "tbd")
    then readtapi_args (value sys (codes "LLVM_READTAPI")) input output ∷ []
    else []

abbrev pub interface_commands : System → Bool → List (List Bytes)
interface_commands sys versioned =
    if wants_interface sys
    then format_commands sys versioned (value sys (codes "LLVM_INTERFACE_LIBRARY_FORMAT"))
        (value sys (codes "LLVM_INTERFACE_LIBRARY_INPUT"))
        (value sys (codes "LLVM_INTERFACE_LIBRARY_OUTPUT"))
    else []

-- Whether a library has versioned symbols is what the scan of it has found.
abbrev pub ScanSays : Limits → Machine → Bytes → Bool → Type 0
ScanSays l m input versioned =
    (v : World) × (v' : World) × (has_versioned_symbols l.fuel l.room m.sys m.temporary input v
      ≡ returned (0, versioned) v')

module _ (l : Limits) (m : Machine) where
  -- What may follow the scan for versioned symbols.
  abbrev elf_commands : Bool → Bytes → Bytes → List (List Bytes)
  elf_commands versioned input output =
      if versioned then [] else ifs_args (value m.sys (codes "LLVM_IFS")) input output ∷ []

  copy_action-Started :
      (source destination : Bytes) (w : World) → Started [] w (copy_action l m source destination w)
  unfolding copy_action
  copy_action-Started source destination w =
      go (copy_file l.chunk m.streams source destination w.files)
    where
      go :
          (o : Option (ℕ × Files))
          → Started [] w (elim o as (λ _. Result ℕ) [
            | none ↦ waiting w
            | some (status, left) ↦ returned status (record w { files = left })
          ])
      go none = ([], refl)
      go (some (status, left)) = ([], refl, (λ z. refl))

  elf_scanned-Started :
      (versioned : Bool) (input output : Bytes) (w : World)
      → Started (elf_commands versioned input output) w (elf_scanned l m input output versioned w)
  unfolding elf_scanned
  elf_scanned-Started true input output w = copy_action-Started input output w
  elf_scanned-Started false input output w =
      let llvm_ifs = value m.sys (codes "LLVM_IFS") in
      required_env-Started (ifs_args llvm_ifs input output ∷ []) m.sys (codes "LLVM_IFS")
        (λ tool. run_process l.fuel m.sys (ifs_args tool input output)) w
        (run_process-Started l.fuel m.sys (ifs_args llvm_ifs input output) w)

  scan_ended-StartedBy :
      (plan : List (List Bytes)) (room : ℕ) (ended : ℕ × Bytes) (w w' : World)
      → StartedBy (λ (e : ℕ × Bytes). e.0) plan w (returned ended w')
      → StartedBy (λ (r : ℕ × Bool). r.0) plan w (scan_ended room m.temporary ended w')
  unfolding scan_ended
  scan_ended-StartedBy plan room (status, output) w w' (rest, g, z) =
      elim (Bool-cases (status == 0)) [
        | inr bad ↦ rw bad (rest, g, z)
        | inl y ↦ rw y (go (ground arith) (scan_output room m.temporary output))
      ]
    where
      go :
          (done : status ≡ 0) (o : Option (ℕ × Bool))
          → StartedBy
              (λ (r : ℕ × Bool). r.0)
              plan
              w
              (elim o as (λ _. Result (ℕ × Bool)) [ none ↦ waiting w' | some r ↦ returned r w' ])
      go done none = (rest, g)
      go done (some r) = (rest, g, λ zero_scan. z done)

  -- The scan starts llvm-nm alone.
  scan_library-StartedBy :
      (input llvm_nm : Bytes) (w : World)
      → StartedBy
          (λ (r : ℕ × Bool). r.0)
          (nm_args llvm_nm input ∷ [])
          w
          (scan_library l.fuel l.room m.sys m.temporary input llvm_nm w)
  unfolding scan_library run_process_with_stdout
  scan_library-StartedBy input llvm_nm w = elim (Bool-cases m.temporary.creates) [
    | inr bad ↦ rw bad (nm_args llvm_nm input ∷ [], refl, λ z. absurd (omega arith))
    | inl y ↦
        let args = nm_args llvm_nm input in
        let ready = m.sys.redirects args w in
        rw y (go (spawn l.fuel ready m.sys args w) (spawn-StartedBy l.fuel ready m.sys args w))
  ]
    where
      go :
          (r : Result (ℕ × Bytes))
          → StartedBy (λ (e : ℕ × Bytes). e.0) (nm_args llvm_nm input ∷ []) w r
          → StartedBy
              (λ (r : ℕ × Bool). r.0)
              (nm_args llvm_nm input ∷ [])
              w
              (elim r as (λ _. Result (ℕ × Bool)) [
                | returned ended w' ↦ scan_ended l.room m.temporary ended w'
                | exit n w' ↦ exit n w'
                | waiting w' ↦ waiting w'
              ])
      go (returned ended w') h = scan_ended-StartedBy _ l.room ended w w' h
      go (exit n w') h = h
      go (waiting w') h = h

  scanned-StartedBy :
      (input : Bytes) (w : World)
      → StartedBy
          (λ (r : ℕ × Bool). r.0)
          (nm_args (value m.sys (codes "LLVM_NM")) input ∷ [])
          w
          (has_versioned_symbols l.fuel l.room m.sys m.temporary input w)
  unfolding has_versioned_symbols
  scanned-StartedBy input w =
      let llvm_nm = value m.sys (codes "LLVM_NM") in
      required_env-StartedBy (λ (r : ℕ × Bool). r.0) (nm_args llvm_nm input ∷ []) m.sys
        (codes "LLVM_NM") (scan_library l.fuel l.room m.sys m.temporary input) w
        (scan_library-StartedBy input llvm_nm w)

  -- What follows the scan, by its outcome.
  abbrev after_scan : Bytes → Bytes → Result (ℕ × Bool) → Result ℕ
  after_scan input output r = elim r as (λ _. Result ℕ) [
    | returned scanned w' ↦
        (if scanned.0 == 0 then elf_scanned l m input output scanned.1 else pure scanned.0) w'
    | exit n w' ↦ exit n w'
    | waiting w' ↦ waiting w'
  ]

  generate_elf-Started :
      (input output : Bytes) (w : World)
      → (versioned : Bool) × Started
          (nm_args (value m.sys (codes "LLVM_NM")) input ∷ elf_commands versioned input output)
          w
          (generate_elf l m input output w)
        × WhenZero (ScanSays l m input versioned) (generate_elf l m input output w)
  unfolding generate_elf
  generate_elf-Started input output w =
      go (has_versioned_symbols l.fuel l.room m.sys m.temporary input w) refl
        (scanned-StartedBy input w)
    where
      scan_counts :
          (code : ℕ) (versioned : Bool) (w' : World)
          → has_versioned_symbols l.fuel l.room m.sys m.temporary input w
            ≡ returned (code, versioned) w'
          → WhenZero
              (ScanSays l m input versioned)
              (after_scan input output (returned (code, versioned) w'))
      scan_counts code versioned w' e = elim (Bool-cases (code == 0)) [
        | inl y ↦
            let done : code ≡ 0 = ground arith in
            rw y (
              WhenZero-intro (elf_scanned l m input output versioned w')
                (w, w', e ∙ ap (λ (c : ℕ). returned (c, versioned) w') done))
        | inr bad ↦ rw bad (λ z. absurd (ground arith))
      ]

      nm : List Bytes
      nm = nm_args (value m.sys (codes "LLVM_NM")) input

      go :
          (r : Result (ℕ × Bool))
          → has_versioned_symbols l.fuel l.room m.sys m.temporary input w ≡ r
          → StartedBy (λ (r : ℕ × Bool). r.0) (nm ∷ []) w r
          → (versioned : Bool) × Started
              (nm ∷ elf_commands versioned input output)
              w
              (after_scan input output r)
            × WhenZero (ScanSays l m input versioned) (after_scan input output r)
      go (returned (code, versioned) w') e h = (
        versioned,
        bind-Started (nm ∷ []) (elf_commands versioned input output)
            (elf_scanned l m input output versioned) w (returned code w') h
            (elf_scanned-Started versioned input output),
        scan_counts code versioned w' e,
      )
      go (exit n w') e h =
          (true, bind-Started (nm ∷ []) [] (pure 0) w (exit n w') h pure_zero-Started, tt)
      go (waiting w') e h =
          (true, bind-Started (nm ∷ []) [] (pure 0) w (waiting w') h pure_zero-Started, tt)

  generate_tbd-Started :
      (input output : Bytes) (w : World)
      → Started
          (readtapi_args (value m.sys (codes "LLVM_READTAPI")) input output ∷ [])
          w
          (generate_tbd l m input output w)
  unfolding generate_tbd
  generate_tbd-Started input output w =
      let tool = value m.sys (codes "LLVM_READTAPI") in
      required_env-Started (readtapi_args tool input output ∷ []) m.sys (codes "LLVM_READTAPI")
        (λ t. run_process l.fuel m.sys (readtapi_args t input output)) w
        (run_process-Started l.fuel m.sys (readtapi_args tool input output) w)

  pub generate-Started :
      (format input output : Bytes) (w : World)
      → (versioned : Bool) × Started
          (format_commands m.sys versioned format input output)
          w
          (generate_interface_library l m format input output w)
        × WhenZero
            (str_eq format (codes "elf") ≡ true → ScanSays l m input versioned)
            (generate_interface_library l m format input output w)
  unfolding generate_interface_library
  generate-Started format input output w = elim (Bool-cases (str_eq format (codes "elf"))) [
    | inl elf ↦
        let (versioned, h, says) = generate_elf-Started input output w in
        rw elf (versioned, h, WhenZero-map _ _ (generate_elf l m input output w) says)
    | inr other ↦ elim (Bool-cases (str_eq format (codes "tbd"))) [
      | inl tbd ↦
          rw (other, tbd)
            (
              true,
              generate_tbd-Started input output w,
              WhenZero-intro (generate_tbd l m input output w) (λ e. absurd (ground arith)),
            )
      | inr bad ↦ rw (other, bad) (true, ([], refl, (λ z. refl)), (λ z e. absurd (ground arith)))
    ]
  ]

-- ===== src/LinkWrapper/Interface/Scanned.antt =====
-- `generate_elf` of tools/internal/link_wrapper.c behind the output of llvm-nm.
use hermetic_llvm.LinkWrapper.Versions.Laws.{HasNoNul, scan_output_lem}
use hermetic_llvm.Bytes.{Bytes, codes, has_byte, str_eq}
use hermetic_llvm.LinkWrapper.{
  required_env, World, set_env, run_process, run_process_with_stdout, returned, System, Result,
  pure, exit, waiting,
}
use hermetic_llvm.LinkWrapper.Versions.{
  has_versioned_symbols, scan_library, scan_ended, nm_args, scan_output, Temporary,
}
use hermetic_llvm.LinkWrapper.Interface.{
  generate_elf, Limits, Machine, elf_scanned, copy_action, ifs_args,
}
use hermetic_llvm.LinkWrapper.CopyFile.{Files}
use hermetic_llvm.LinkWrapper.CopyFile.Laws.{copy_file_lem}
use hermetic_llvm.Prelude.{
  ℕ, suc, ◌≡◌, refl, ap, ◌∙◌, true, none, some, Bool, if◌then◌else◌, ◌==◌, false, [], ◌∷◌, ◌⊎◌, inl,
  inr, ◌≢◌, ◌<◌, subst, sym, Option-cases,
}

module _ (fuel room : ℕ) (sys : System) (t : Temporary) (path llvm_nm printed : Bytes)
    (w w' : World) (created : t.creates ≡ true)
    (ran : run_process_with_stdout fuel sys (nm_args llvm_nm path) w
      ≡ returned (0, printed) w') where
  scan_library_ended :
      scan_library fuel room sys t path llvm_nm w ≡ scan_ended room t (0, printed) w'
  unfolding scan_library scan_ended scan_output
  scan_library_ended = rw (scan_library, created, ran) refl

  scan_ended_lem :
      (r : ℕ × Bool)
      → scan_output room t printed ≡ some r
      → scan_ended room t (0, printed) w' ≡ returned r w'
  unfolding scan_ended
  scan_ended_lem r scanned = rw (scan_ended, scanned) refl

  has_versioned_symbols_lem :
      (r : ℕ × Bool)
      → set_env sys (codes "LLVM_NM") ≡ some llvm_nm
      → scan_output room t printed ≡ some r
      → has_versioned_symbols fuel room sys t path w ≡ returned r w'
  unfolding has_versioned_symbols required_env
  has_versioned_symbols_lem r set scanned =
      rw (has_versioned_symbols, required_env, set) (scan_library_ended ∙ scan_ended_lem r scanned)

generate_elf_after :
    (l : Limits) (m : Machine) (input output : Bytes) (w w' : World) (versioned : Bool)
    → has_versioned_symbols l.fuel l.room m.sys m.temporary input w ≡ returned (0, versioned) w'
    → generate_elf l m input output w ≡ elf_scanned l m input output versioned w'
unfolding generate_elf
generate_elf_after l m input output w w' versioned e =
    ap
      (λ (r : Result (ℕ × Bool)). elim r as (λ _. Result ℕ) [
        | returned scanned v ↦
            (if scanned.0 == 0 then elf_scanned l m input output scanned.1 else pure scanned.0) v
        | exit n v ↦ exit n v
        | waiting v ↦ waiting v
      ])
      e

-- How an interface library is made in the world behind llvm-nm, for a library with versioned symbols
-- and for one without.
abbrev pub MadeFrom : Limits → Machine → Bytes → Bytes → World → Result ℕ → Bool → Type 0
MadeFrom l m input output w' r true =
    (code : ℕ) × (left : Files) × (r ≡ returned code (record w' { files = left }))
    × (((code ≡ 0) × (left output ≡ w'.files input)) ⊎ (code ≢ 0))
MadeFrom l m input output w' r false =
    ((llvm_ifs : Bytes) × (set_env m.sys (codes "LLVM_IFS") ≡ some llvm_ifs)
      × (r ≡ run_process l.fuel m.sys (llvm_ifs ∷ input ∷ codes "--output-elf" ∷ output ∷ []) w'))
    ⊎ ((set_env m.sys (codes "LLVM_IFS") ≡ none) × (r ≡ exit 127 w'))

elf_scanned-MadeFrom :
    (l : Limits) (m : Machine) (input output : Bytes) (w' : World) (versioned : Bool)
    → 0 < l.chunk
    → str_eq input output ≡ false
    → MadeFrom l m input output w' (elf_scanned l m input output versioned w') versioned
unfolding elf_scanned copy_action required_env ifs_args
elf_scanned-MadeFrom l m input output w' true positive other =
    let (code, left, e, ends, _) =
      copy_file_lem l.chunk m.streams input output w'.files positive other in
    (
      code,
      left,
      rw (copy_action, e) refl,
      (elim ends [ inl good ↦ inl good | inr bad ↦ inr bad.0 ]),
    )
elf_scanned-MadeFrom l m input output w' false positive other =
    elim (Option-cases (set_env m.sys (codes "LLVM_IFS"))) [
      | inl unset ↦ inr (unset, rw (required_env, unset) refl)
      | inr (llvm_ifs, set) ↦ inl (llvm_ifs, set, rw (required_env, set) refl)
    ]

-- Where the variable for llvm-nm is set, the temporary file is created, rewinds and can be read, and
-- llvm-nm ends with status 0 and an output without a zero byte, `generate_elf` goes on by whether an
-- `@` stands anywhere in that output. With one, it comes back, and either returns 0 and the output
-- file holds what the library held, or returns another status. With none, it is the run of llvm-ifs on
-- the library and the output file, or ends with status 127 because LLVM_IFS is not set. The library
-- and the output file are different paths, and the buffers are not empty.
pub generate_elf_lem :
    (l : Limits) (m : Machine) (room : ℕ) (input output llvm_nm printed : Bytes) (w w' : World)
    → l.room ≡ suc room
    → 0 < l.chunk
    → str_eq input output ≡ false
    → set_env m.sys (codes "LLVM_NM") ≡ some llvm_nm
    → m.temporary.creates ≡ true
    → m.temporary.rewinds ≡ true
    → m.temporary.readable ≡ none
    → run_process_with_stdout l.fuel m.sys (nm_args llvm_nm input) w ≡ returned (0, printed) w'
    → HasNoNul printed
    → MadeFrom l m input output w' (generate_elf l m input output w) (has_byte printed b'@')
generate_elf_lem l m room input output llvm_nm printed w w' roomy positive other set created rewinds
      readable ran no_nul =
    let versioned = has_byte printed b'@' in
    let scanned : scan_output l.room m.temporary printed ≡ some (0, versioned) =
      ap (λ (r : ℕ). scan_output r m.temporary printed) roomy
      ∙ scan_output_lem room m.temporary printed rewinds readable no_nul in
    let goes_on = generate_elf_after l m input output w w' versioned (
      has_versioned_symbols_lem l.fuel l.room m.sys m.temporary input llvm_nm printed w w' created
        ran (0, versioned) set scanned) in
    subst (λ r. MadeFrom l m input output w' r versioned) (sym goes_on)
      (elf_scanned-MadeFrom l m input output w' versioned positive other)

-- ===== src/Validator/Main.antt =====
-- `required_env`, `touch` and `main` of the validator. `llvm-nm`, `llvm-cxxfilt`, the environment
-- and the temporary files are a parameter.
use mathlib.Core.List.{Perm}
use hermetic_llvm.Validator.Runs.{count_symbol}
use hermetic_llvm.Validator.{Qsort, SymbolEntry, dup_block, parse_lines, split_lines}
use hermetic_llvm.Bytes.{Bytes, is_empty, codes, str_eq}
use hermetic_llvm.Prelude.{
  count_if-perm, ℕ, Bool, not, Option, none, some, List, [], ◌∷◌, ◌++◌, if◌then◌else◌, leb, ◌≡◌,
  any_of, arith, refl, false, true, ◌⊎◌,
}

-- What the environment answers.
pub record Outside : Type 0 where
  pub getenv : Bytes → Option Bytes
  -- `run` between two temporary files, and the reading of its output; `none` where one of these,
  -- or the creation of a temporary file, fails
  pub run : List Bytes → Bytes → Option Bytes
  -- whether `dup_file` is created and written
  pub writes : Bytes → Bool
  -- whether a path opens for appending, and closes
  pub opens : Bytes → Bool
  pub closes : Bytes → Bool
  -- what `copy_file` writes to the standard error, and whether it succeeds
  pub copy_file : Bytes → Bytes × Bool

-- How `main` ends: its status, the stamps that it touched, and the report that it printed.
pub record Verdict : Type 0 where
  pub status : ℕ
  pub touched : List Bytes
  pub printed : Bytes

unfoldable pub required_env : Outside → Bytes → Option Bytes
required_env out name = elim (out.getenv name) [
  | none ↦ none
  | some value ↦ if is_empty value then none else some value
]

abbrev pub failed : Verdict
failed = record { status = 2; touched = []; printed = [] }

-- `nm_args`.
unfoldable pub nm_args : Outside → Bytes → Bytes → List Bytes
nm_args out llvm_nm library =
    let weak : List Bytes = elim (out.getenv (codes "DARWIN_TARGET")) [
      | none ↦ []
      | some value ↦ if str_eq value (codes "1") then codes "--no-weak" ∷ [] else []
    ] in
    llvm_nm ∷ codes "-A" ∷ codes "-g" ∷ codes "-P" ∷ (weak ++ library ∷ [])

-- From the report that is not empty on.
unfoldable pub print_duplicates : Outside → Bytes → Bytes → Verdict
print_duplicates out library text = elim (required_env out (codes "LLVM_CXXFILT")) [
  | none ↦ failed
  | some llvm_cxxfilt ↦
      if not (out.writes text) then failed else elim (out.run (llvm_cxxfilt ∷ []) text) [
        | none ↦ failed
        | some demangled ↦ record {
          status = if (out.copy_file demangled).1 then 1 else 2;
          touched = [];
          printed =
              codes "Duplicate symbols found in "
              ++ (library ++ (codes ":\n" ++ (out.copy_file demangled).0));
        }
      ]
]

-- What `llvm-nm` found, in the order of `qsort`.
unfoldable pub sorted_entries : Qsort → Bytes → List SymbolEntry
sorted_entries q output = q.sort (parse_lines (split_lines output))

-- `touch` of the stamp, and the status that follows.
unfoldable pub touch : Outside → Bytes → Verdict
touch out path =
    if out.opens path
    then record { status = if out.closes path then 0 else 2; touched = path ∷ []; printed = [] }
    else failed

unfoldable pub main : Qsort → Outside → List Bytes → Verdict
main q out (library ∷ stamp_path ∷ []) = elim (required_env out (codes "LLVM_NM")) [
  | none ↦ failed
  | some llvm_nm ↦ elim (out.run (nm_args out llvm_nm library) []) [
    | none ↦ failed
    | some output ↦
        let text = dup_block (sorted_entries q output) in
        if is_empty text then touch out stamp_path else print_duplicates out library text
  ]
]
main q out _ = failed

-- Whether the symbol of an entry occurs twice.
abbrev pub is_repeated : List SymbolEntry → SymbolEntry → Bool
is_repeated all e = leb 2 (count_symbol e.symbol all)

count_symbol-perm :
    {l r : List SymbolEntry} (s : Bytes) → Perm l r → count_symbol s l ≡ count_symbol s r
count_symbol-perm s p = count_if-perm (λ e. str_eq e.symbol s) p

any_repeated-perm :
    (l r es : List SymbolEntry) → Perm l r → any_of (is_repeated l) es ≡ any_of (is_repeated r) es
any_repeated-perm l r [] p = refl
any_repeated-perm l r (e ∷ es) p =
    ground (arith, count_symbol-perm e.symbol p, any_repeated-perm l r es p)

-- The verdict where no symbol is repeated.
abbrev pub Stamped : Outside → Bytes → Verdict → Type 0
Stamped out stamp_path v =
    (v.printed ≡ [])
    × (((out.opens stamp_path ≡ false) × (v.touched ≡ []) × (v.status ≡ 2))
        ⊎ ((out.opens stamp_path ≡ true)
            × (v.touched ≡ stamp_path ∷ [])
            × (((out.closes stamp_path ≡ true) × (v.status ≡ 0))
                ⊎ ((out.closes stamp_path ≡ false) × (v.status ≡ 2)))))

-- Why a report is not printed.
abbrev pub Unprinted : Outside → Bytes → Type 0
Unprinted out text =
    (required_env out (codes "LLVM_CXXFILT") ≡ none)
    ⊎ ((out.writes text ≡ false)
        ⊎ ((llvm_cxxfilt : Bytes) × (required_env out (codes "LLVM_CXXFILT") ≡ some llvm_cxxfilt)
            × (out.run (llvm_cxxfilt ∷ []) text ≡ none)))

-- The verdict on the entries of a report.
abbrev pub Reported : Outside → Bytes → Bytes → Verdict → Type 0
Reported out library text v =
    (v.touched ≡ [])
    × (((v.status ≡ 2) × (v.printed ≡ []) × Unprinted out text)
        ⊎ ((llvm_cxxfilt : Bytes) × (demangled : Bytes) × (required_env out (codes "LLVM_CXXFILT")
              ≡ some llvm_cxxfilt)
            × (out.writes text ≡ true)
            × (out.run (llvm_cxxfilt ∷ []) text ≡ some demangled)
            × (v.printed
                ≡ codes "Duplicate symbols found in "
                  ++ (library ++ (codes ":\n" ++ (out.copy_file demangled).0)))
            × ((((out.copy_file demangled).1 ≡ true) × (v.status ≡ 1))
                ⊎ (((out.copy_file demangled).1 ≡ false) × (v.status ≡ 2)))))

-- The entries in the output of llvm-nm.
abbrev pub found_in : Bytes → List SymbolEntry
found_in output = parse_lines (split_lines output)

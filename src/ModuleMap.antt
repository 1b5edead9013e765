-- ===== src/ModuleMap.antt =====
-- tools/internal/module_map_generator.c: the loop over the lines of the parameter file.
pub mod Main
use hermetic_llvm.Bytes.{Bytes, codes, is_empty, c_string}
use hermetic_llvm.Prelude.{
  ℕ, ◌≡◌, refl, ap, ◌∙◌, ◌≢◌, inl, inr, Bool, true, false, not, ◌&&◌, Option, none, some, List, [],
  ◌∷◌, ◌++◌, arith, ◌==◌, if◌then◌else◌, ==_iff, Bool-cases, any_of,
}

-- The lines as the inner loop cuts them; a last line without a newline counts unless it is empty.
unfoldable pub params_lines : Bytes → List Bytes
params_lines [] = []
params_lines (c ∷ cs) =
    if c == b'\n'
    then [] ∷ params_lines cs
    else elim (params_lines cs) [ [] ↦ (c ∷ []) ∷ [] | line ∷ lines ↦ (c ∷ line) ∷ lines ]

-- The text and the status, or the store through the null pointer `line`.
pub data Printed : Type 0 where
  written : Bytes → ℕ → Printed
  null_store : Printed

-- What `fprintf` writes for a header and the digits of its size.
unfoldable pub module_text : Bytes → Bytes → Bytes
module_text header digits =
    codes "  module \""
    ++ (header
        ++ (codes "\" {\n    textual header \""
            ++ (header ++ (codes "\" { size " ++ (digits ++ codes " }\n  }\n")))))

-- `sizes` is `file_size` with the size in decimal; `allocated` says whether `line` is allocated,
-- which it is once a byte was stored.
unfoldable pub print_lines : (Bytes → Option Bytes) → Bool → ℕ → List Bytes → Printed
print_lines sizes allocated status [] = written (codes "}\n") status
print_lines sizes allocated status (line ∷ lines) =
    let empty = print_lines sizes allocated status lines in
    let failing = print_lines sizes true 1 lines in
    let good = print_lines sizes true status lines in
    if is_empty line
    then (if allocated then empty else null_store)
    else elim (sizes (c_string line)) [
      | none ↦ failing
      | some digits ↦ elim good [
        | null_store ↦ null_store
        | written text final ↦ written (module_text (c_string line) digits ++ text) final
      ]
    ]

-- Between the opening of both files and their `fclose`.
unfoldable pub print_module_map : (Bytes → Option Bytes) → Bytes → Printed
print_module_map sizes params = elim (print_lines sizes false 0 (params_lines params)) [
  | null_store ↦ null_store
  | written text final ↦ written (codes "module \"crosstool\" [system] {\n" ++ text) final
]

-- The modules of the headers whose size is known, and whether a size is unknown.
abbrev pub modules : (Bytes → Option Bytes) → List Bytes → Bytes
modules sizes [] = codes "}\n"
modules sizes (line ∷ lines) =
    if is_empty line then modules sizes lines else elim (sizes (c_string line)) [
      | none ↦ modules sizes lines
      | some digits ↦ module_text (c_string line) digits ++ modules sizes lines
    ]

abbrev pub is_missing : (Bytes → Option Bytes) → Bytes → Bool
is_missing sizes line =
    not (is_empty line) && (elim (sizes (c_string line)) [ none ↦ true | some _ ↦ false ])

print_lines-allocated :
    (sizes : Bytes → Option Bytes) (status : ℕ) (lines : List Bytes)
    → print_lines sizes true status lines
      ≡ written (modules sizes lines) (if any_of (is_missing sizes) lines then 1 else status)
unfolding print_lines
print_lines-allocated sizes status [] = refl
print_lines-allocated sizes status (line ∷ lines) =
    let rest = print_lines-allocated sizes status lines in
    let failing = print_lines-allocated sizes 1 lines in ground (arith, rest, failing)

print_lines_first :
    (sizes : Bytes → Option Bytes) (status c : ℕ) (line : Bytes) (lines : List Bytes)
    → print_lines sizes false status ((c ∷ line) ∷ lines)
      ≡ print_lines sizes true status ((c ∷ line) ∷ lines)
unfolding print_lines
print_lines_first sizes status c line lines = refl

params_lines_first :
    (sizes : Bytes → Option Bytes) (params : Bytes)
    → ((rest : Bytes) → params ≢ b'\n' ∷ rest)
    → print_lines sizes false 0 (params_lines params)
      ≡ print_lines sizes true 0 (params_lines params)
unfolding params_lines
params_lines_first sizes [] h = unfold print_lines in refl
params_lines_first sizes (c ∷ cs) h = elim (Bool-cases (c == b'\n')) [
  | inl y ↦ absurd (h cs (ap (λ d. d ∷ cs) ((==_iff c b'\n').0 y)))
  | inr n ↦ rw n (go (params_lines cs))
]
  where
    go :
        (l : List Bytes)
        → print_lines sizes false 0
            (elim l as (λ _. List Bytes) [ [] ↦ (c ∷ []) ∷ [] | line ∷ lines ↦ (c ∷ line) ∷ lines ])
          ≡ print_lines sizes true 0 (elim l as (λ _. List Bytes) [
            | [] ↦ (c ∷ []) ∷ []
            | line ∷ lines ↦ (c ∷ line) ∷ lines
          ])
    go [] = print_lines_first sizes 0 c [] []
    go (line ∷ lines) = print_lines_first sizes 0 c line lines

params_lines_newline :
    (sizes : Bytes → Option Bytes) (rest : Bytes)
    → print_module_map sizes (b'\n' ∷ rest) ≡ null_store
unfolding print_module_map print_lines params_lines
params_lines_newline sizes rest = refl

-- Where the parameter file begins with a newline, the first line is stored through a null pointer;
-- otherwise the module map has a module for every nonempty line whose file has a size, in order,
-- and the status is 1 exactly where some file has none.
pub print_module_map_lem :
    (sizes : Bytes → Option Bytes) (params : Bytes)
    → ((rest : Bytes) → params ≡ b'\n' ∷ rest → print_module_map sizes params ≡ null_store)
      × (((rest : Bytes) → params ≢ b'\n' ∷ rest)
          → print_module_map sizes params
            ≡ written
                (codes "module \"crosstool\" [system] {\n" ++ modules sizes (params_lines params))
                (if any_of (is_missing sizes) (params_lines params) then 1 else 0))
unfolding print_module_map
print_module_map_lem sizes params = (
  λ rest e. ap (print_module_map sizes) e ∙ params_lines_newline sizes rest,
  λ h.
      let printed =
        params_lines_first sizes params h ∙ print_lines-allocated sizes 0 (params_lines params) in
      rw (printed, print_module_map) refl,
)

-- ===== src/ModuleMap/Main.antt =====
-- `file_size` and `main` of tools/internal/module_map_generator.c, on the files around the loop.
use hermetic_llvm.ModuleMap.{
  Printed, modules, print_module_map, is_missing, written, params_lines, null_store,
  print_module_map_lem,
}
use hermetic_llvm.Bytes.{Bytes, codes, str_eq}
use hermetic_llvm.Prelude.{
  ℕ, ◌≡◌, refl, ◌≢◌, Bool, true, false, not, Option, none, some, List, [], ◌∷◌, ◌++◌, ◌==◌,
  if◌then◌else◌, take, any_of,
}

-- What the system answers: the size of a file in bytes, where `stat` finds it, and its decimal
-- digits; whether the output opens; behind how many bytes the writes to it are lost, which no call but
-- `fclose` reports; and whether it closes.
pub record Outside : Type 0 where
  pub stat : Bytes → Option ℕ
  pub decimal : ℕ → Bytes
  pub opens : Bytes → Bool
  pub stops : Option ℕ
  pub closes : Bool

abbrev pub Files : Type 0
Files = Bytes → Option Bytes

-- The status and the files that are left, or the store through a null pointer.
pub data Ending : Type 0 where
  ended : ℕ → Files → Ending
  crashed : Ending

-- `file_size`, in the digits that are printed.
unfoldable pub file_size : Outside → Bytes → Option Bytes
file_size out path = elim (out.stat path) [ none ↦ none | some size ↦ some (out.decimal size) ]

-- The part of the output that reaches the file.
abbrev pub kept : Option ℕ → Bytes → Bytes
kept none text = text
kept (some n) text = take n text

abbrev pub put : Files → Bytes → Bytes → Files
put files path text p = if str_eq p path then some text else files p

-- From the printed text on.
unfoldable pub close_output : Outside → Files → Bytes → Printed → Ending
close_output out files output_path null_store = crashed
close_output out files output_path (written text status) =
    ended (if out.closes then status else 1) (put files output_path (kept out.stops text))

-- From the two paths on. The output is truncated before the parameters are read.
unfoldable pub write_module_map : Outside → Files → Bytes → Bytes → Ending
write_module_map out files output_path params_path = elim (files params_path) [
  | none ↦ ended 1 files
  | some params ↦
      if not (out.opens output_path)
      then ended 1 files
      else (let read = if str_eq params_path output_path then [] else params in
          close_output out files output_path (print_module_map (file_size out) read))
]

-- On the arguments behind the program's name.
unfoldable pub main : Outside → Files → List Bytes → Ending
main out files (output_path ∷ (mark ∷ params_path) ∷ []) =
    if mark == b'@' then write_module_map out files output_path params_path else ended 2 files
main out files _ = ended 2 files

-- The module map of a parameter file.
abbrev pub map_text : Outside → Bytes → Bytes
map_text out params =
    codes "module \"crosstool\" [system] {\n" ++ modules (file_size out) (params_lines params)

-- With an output and a parameter file that is another one, opens and does not begin with a newline,
-- where the output opens, takes all writes and closes, `main` ends: the output holds the module map,
-- the other files are unchanged, and the status is 1 exactly where some header has no size.
pub main-map_text :
    (out : Outside) (files : Files) (output_path params_path params : Bytes)
    → str_eq params_path output_path ≡ false
    → files params_path ≡ some params
    → ((rest : Bytes) → params ≢ b'\n' ∷ rest)
    → out.opens output_path ≡ true
    → out.stops ≡ none
    → out.closes ≡ true
    → main out files (output_path ∷ (b'@' ∷ params_path) ∷ [])
      ≡ ended
          (if any_of (is_missing (file_size out)) (params_lines params) then 1 else 0)
          (put files output_path (map_text out params))
unfolding main write_module_map close_output
main-map_text out files output_path params_path params other found starts opened flows closed =
    let printed = (print_module_map_lem (file_size out) params).1 starts in
    rw (main, write_module_map, found, opened, other, printed, close_output, flows, closed) refl

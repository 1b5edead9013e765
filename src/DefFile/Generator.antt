-- ===== src/DefFile/Generator.antt =====
-- `add_input`, `expand_inputs`, `discover_object_symbols`, `write_def_file`, `parse_abi` and `main`
-- of tools/def_file_generator/def_file_generator.c. The file system is explicit; what else the
-- operating system and llvm-nm answer is a parameter.
pub mod Frame
pub mod Safety
pub mod Discover
pub mod Expand
pub mod Pieces
pub mod Printed
use hermetic_llvm.DefFile.StringSet.{StringList, empty_list, string_list_append}
use hermetic_llvm.DefFile.Definition.{is_definition_file, merge_definition_file}
use hermetic_llvm.DefFile.Shell.{decode_shell_argument, failed, argument}
use hermetic_llvm.DefFile.Lines.{trim, read_lines}
use hermetic_llvm.DefFile.Symbols.{SymbolSets, no_symbols, remove_imported_symbols}
use hermetic_llvm.Bytes.{Bytes, codes, is_empty, has_byte, str_eq}
use hermetic_llvm.DefFile.NmOutput.{Abi, parse_nm_output, msvc, gnu}
use hermetic_llvm.Prelude.{
  ℕ, ◌+◌, Bool, true, false, not, ◌||◌, Option, none, some, List, [], ◌∷◌, ◌++◌, ◌==◌, take,
  if◌then◌else◌,
}

-- The contents of the files; `none` where there is no file that opens for reading.
pub record World : Type 0 where
  pub files : Bytes → Option Bytes

-- What the environment answers to a call that is not under the program's control.
pub record Outside : Type 0 where
  pub getenv : Bytes → Option Bytes
  -- whether a path opens for writing, closes without an error when it was read, and is removed
  pub opens : Bytes → Bool
  pub closes : Bytes → Bool
  pub removes : Bytes → Bool
  -- `fprintf` to the file at a path, of a text behind the text that is written there already: after
  -- how many bytes it fails, where it does
  pub prints : Bytes → Bytes → Bytes → Option ℕ
  -- `fclose` of a written file: how many of its bytes are in the file where it fails
  pub stops : Bytes → Option ℕ
  -- whether `tmpfile` succeeds
  pub temporary : Bool
  -- the output of a program with its arguments on the files, and `ferror` after it is read
  pub nm : List Bytes → (Bytes → Option Bytes) → Option (Bytes × Bool)
  -- the name that is made of the process id
  pub response_path : Bytes

-- The ways in which a call comes back. `fault` is a search that reads outside
-- a set's list.
pub data Outcome (A : Type 0) : Type 0 where
  ok : A → World → Outcome A
  failure : World → Outcome A
  exited : ℕ → World → Outcome A
  fault : World → Outcome A

unfoldable pub put : World → Bytes → Bytes → World
put world path content = record {
  files = λ p. if str_eq p path then some content else world.files p;
}

-- `remove_file`: a file that cannot be removed stays.
unfoldable pub remove_file : Outside → World → Bytes → World
remove_file out world path =
    if out.removes path
    then record { files = λ p. if str_eq p path then none else world.files p }
    else world

-- The sets and the object list that the inputs fill.
pub record Inputs : Type 0 where
  pub sets : SymbolSets
  pub objects : StringList

unfoldable pub add_input : Outside → World → Inputs → Bytes → Option Inputs
add_input out world inputs filename =
    if is_definition_file filename
    then elim (merge_definition_file inputs.sets (world.files filename) (out.closes filename)) [
      | none ↦ none
      | some sets' ↦ some (record inputs { sets = sets' })
    ]
    else some (record inputs { objects = string_list_append inputs.objects filename })

-- The loop over the lines of a parameter file.
pub add_lines : Outside → World → Inputs → List Bytes → Option Inputs
add_lines out world inputs [] = some inputs
add_lines out world inputs (line ∷ lines) = elim (decode_shell_argument (trim line)) [
  | failed _ ↦ none
  | argument filename ↦ elim (add_input out world inputs filename) [
    | none ↦ none
    | some inputs' ↦ add_lines out world inputs' lines
  ]
]

-- An argument: `@` and the path of a parameter file, or an input.
pub expand_input : Outside → World → Inputs → Bytes → Option Inputs
expand_input out world inputs [] = add_input out world inputs (trim [])
expand_input out world inputs (c ∷ path) =
    if c == b'@'
    then elim (world.files path) [
      | none ↦ none
      | some content ↦ elim (add_lines out world inputs (read_lines content)) [
        | none ↦ none
        | some inputs' ↦ if out.closes path then some inputs' else none
      ]
    ]
    else add_input out world inputs (trim (c ∷ path))

-- The loop over `argv[3]` and the following arguments.
unfoldable pub expand_inputs : Outside → World → Inputs → List Bytes → Option Inputs
expand_inputs out world inputs [] = some inputs
expand_inputs out world inputs (arg ∷ args) = elim (expand_input out world inputs arg) [
  | none ↦ none
  | some inputs' ↦ expand_inputs out world inputs' args
]

-- One line of the response file.
abbrev pub quoted_line : Bytes → Bytes
quoted_line object = b'"' ∷ (object ++ b'"' ∷ b'\n' ∷ [])

-- The text that is written behind another one up to the first object that cannot be written, and
-- whether there is none.
unfoldable pub response_text : Outside → Bytes → List Bytes → Bytes × Bool
response_text out written [] = (written, true)
response_text out written (object ∷ objects) =
    let line = quoted_line object in
    let others = response_text out (written ++ line) objects in
    if has_byte object b'"'
    then (written, false)
    else elim (out.prints out.response_path written line) [
      | none ↦ others
      | some n ↦ (written ++ take n line, false)
    ]

-- What is in a file once its stream is closed.
unfoldable pub left_text : Outside → Bytes → Bytes → Bytes
left_text out path written = elim (out.stops path) [ none ↦ written | some n ↦ take n written ]

-- Whether closing a written file fails.
abbrev pub is_cut : Outside → Bytes → Bool
is_cut out path = elim (out.stops path) [ none ↦ false | some _ ↦ true ]

-- `arguments`.
abbrev pub nm_arguments : Bytes → Bytes → List Bytes
nm_arguments llvm_nm response_path =
    llvm_nm
    ∷ codes "-A"
    ∷ codes "-g"
    ∷ codes "--defined-only"
    ∷ codes "--format=posix"
    ∷ (b'@' ∷ response_path)
    ∷ []

-- `run`, `parse_nm_output` and `remove_imported_symbols`.
unfoldable pub nm_symbols : Outside → Abi → SymbolSets → Bytes → World → Option (Option SymbolSets)
nm_symbols out abi sets llvm_nm world =
    elim (out.nm (nm_arguments llvm_nm out.response_path) world.files) [
      | none ↦ some none
      | some (output, broken) ↦
          elim (parse_nm_output abi (record { sets = sets; import_pointers = empty_list }) output
            broken) [
              | none ↦ some none
              | some state ↦ elim (remove_imported_symbols state.sets state.import_pointers) [
                | none ↦ none
                | some sets' ↦ some (some sets')
              ]
            ]
    ]

-- A value that is set and not empty.
unfoldable pub required_env : Outside → Bytes → Option Bytes
required_env out name = elim (out.getenv name) [
  | none ↦ none
  | some value ↦ if is_empty value then none else some value
]

-- From the response file that is written and closed, to its removal.
unfoldable pub run_nm : Outside → Abi → SymbolSets → World → Outcome SymbolSets
run_nm out abi sets world =
    let path = out.response_path in
    elim (required_env out (codes "LLVM_NM")) [
      | none ↦ exited 2 world
      | some llvm_nm ↦
          if not out.temporary
          then failure (remove_file out world path)
          else elim (nm_symbols out abi sets llvm_nm world) [
            | none ↦ fault world
            | some found ↦
                if not (out.removes path)
                then failure (remove_file out world path)
                else elim found [
                  | none ↦ failure (remove_file out world path)
                  | some sets' ↦ ok sets' (remove_file out world path)
                ]
          ]
    ]

unfoldable pub discover_object_symbols :
    Outside → Abi → SymbolSets → List Bytes → World → Outcome SymbolSets
discover_object_symbols out abi sets [] world = ok sets world
discover_object_symbols out abi sets (object ∷ objects) world =
    let path = out.response_path in
    let (text, complete) = response_text out [] (object ∷ objects) in
    if not (out.opens path)
    then failure world
    else (let world' = put world path (left_text out path text) in
        if not complete || is_cut out path
        then failure (remove_file out world' path)
        else run_nm out abi sets world')

-- The texts that `write_def_file` prints, one for each call of `fprintf`.
abbrev pub library_pieces : Bytes → List Bytes
library_pieces dll_name =
    if is_empty dll_name then [] else (codes "LIBRARY " ++ (dll_name ++ b'\n' ∷ [])) ∷ []

pub data_pieces : List Bytes → List Bytes
data_pieces [] = []
data_pieces (symbol ∷ symbols) = (b'\t' ∷ (symbol ++ codes " \t DATA\n")) ∷ data_pieces symbols

pub symbol_pieces : List Bytes → List Bytes
symbol_pieces [] = []
symbol_pieces (symbol ∷ symbols) = (b'\t' ∷ (symbol ++ b'\n' ∷ [])) ∷ symbol_pieces symbols

unfoldable pub def_file_pieces : SymbolSets → Bytes → List Bytes
unfolding data_pieces symbol_pieces
def_file_pieces sets dll_name =
    library_pieces dll_name
    ++ (codes "EXPORTS \n"
        ∷ (data_pieces sets.data_symbols.values ++ symbol_pieces sets.symbols.values))

-- The calls of `fprintf`, whose results are ignored.
unfoldable pub print_pieces : Outside → Bytes → Bytes → List Bytes → Bytes
print_pieces out path written [] = written
print_pieces out path written (piece ∷ pieces) =
    let printed : Bytes = elim (out.prints path written piece) [
      | none ↦ piece
      | some n ↦ take n piece
    ] in
    print_pieces out path (written ++ printed) pieces

unfoldable pub write_def_file : Outside → SymbolSets → Bytes → Bytes → World → Outcome (Unit {0})
write_def_file out sets path dll_name world =
    if not (out.opens path)
    then failure world
    else (let written = print_pieces out path [] (def_file_pieces sets dll_name) in
        let world' = put world path (left_text out path written) in
        if is_cut out path then failure world' else ok tt world')

unfoldable pub parse_abi : Outside → Option Abi
parse_abi out = elim (out.getenv (codes "DEF_FILE_GENERATOR_ABI")) [
  | none ↦ some msvc
  | some value ↦
      if is_empty value || str_eq value (codes "msvc")
      then some msvc
      else if str_eq value (codes "gnu")
      then some gnu
      else none
]

-- The status with which the process ends, or a fault.
pub data Status : Type 0 where
  status : ℕ → World → Status
  crashed : World → Status

pub write_symbols : Outside → Bytes → Bytes → Outcome SymbolSets → Status
write_symbols out path dll_name (ok sets world) =
    elim (write_def_file out sets path dll_name world) [
      | ok _ world' ↦ status 0 world'
      | failure world' ↦ status 1 world'
      | exited code world' ↦ status code world'
      | fault world' ↦ crashed world'
    ]
write_symbols out path dll_name (failure world) = status 1 world
write_symbols out path dll_name (exited code world) = status code world
write_symbols out path dll_name (fault world) = crashed world

-- `main`, on the arguments behind the program's name.
unfoldable pub main : Outside → List Bytes → World → Status
unfolding write_symbols response_text left_text run_nm add_lines expand_input
main out (path ∷ dll_name ∷ input ∷ inputs) world = elim (parse_abi out) [
  | none ↦ status 1 world
  | some abi ↦
      elim (expand_inputs out world (record { sets = no_symbols; objects = empty_list })
        (input ∷ inputs)) [
          | none ↦ status 1 world
          | some found ↦
              write_symbols out path dll_name
                (discover_object_symbols out abi found.sets found.objects.values world)
        ]
]
main out _ world = status 1 world

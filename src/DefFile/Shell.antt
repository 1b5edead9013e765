-- ===== src/DefFile/Shell.antt =====
-- `decode_shell_argument` of tools/def_file_generator/def_file_generator.c. The C code writes the
-- argument over the entry from its first byte; here it is a list of its own.
pub mod Bounds
pub mod Word
use hermetic_llvm.Bytes.{isspace, Bytes}
use hermetic_llvm.Prelude.{ℕ, ◌+◌, Bool, true, false, [], ◌∷◌, ◌++◌, ◌==◌, if◌then◌else◌}

-- The variable `quote`: 0, '\'' or '"'.
pub data Quote : Type 0 where
  unquoted single double : Quote

pub data Error : Type 0 where
  trailing_escape multiple_arguments unterminated_quote empty_entry : Error

pub data Decoded : Type 0 where
  argument : Bytes → Decoded
  failed : Error → Decoded

pub record Shell : Type 0 where
  pub quote : Quote
  pub started : Bool
  pub separated : Bool
  pub output : Bytes

abbrev pub initial : Shell
initial = record { quote = unquoted; started = false; separated = false; output = [] }

abbrev pub push : Shell → ℕ → Shell
push s c = record s { output = s.output ++ c ∷ [] }

-- What the loop does with one byte: fail, go on, or copy the byte behind a backslash.
pub data Action : Type 0 where
  stop : Error → Action
  next : Shell → Action
  escape : Shell → Action

-- An unquoted byte that is no white space.
pub step_word : Shell → ℕ → Action
step_word s c =
    if s.separated
    then stop multiple_arguments
    else (let begun = record s { started = true } in
        if c == b'\''
        then next (record begun { quote = single })
        else if c == b'"'
        then next (record begun { quote = double })
        else if c == b'\\'
        then escape begun
        else next (push begun c))

pub step_in : Quote → Shell → ℕ → Action
step_in single s c = if c == b'\'' then next (record s { quote = unquoted }) else next (push s c)
step_in double s c =
    if c == b'"'
    then next (record s { quote = unquoted })
    else if c == b'\\'
    then escape s
    else next (push s c)
step_in unquoted s c =
    if isspace c then next (record s { separated = s.started }) else step_word s c

abbrev pub shell_step : Shell → ℕ → Action
shell_step s c = step_in s.quote s c

-- The tests behind the loop.
pub finish : Quote → Shell → Decoded
finish unquoted s = if s.started then argument s.output else failed empty_entry
finish _ s = failed unterminated_quote

abbrev pub shell_end : Shell → Decoded
shell_end s = finish s.quote s

unfoldable pub shell_loop : Shell → Bytes → Decoded
shell_loop s [] = shell_end s
shell_loop s (c ∷ []) = elim (shell_step s c) [
  | stop e ↦ failed e
  | next s' ↦ shell_end s'
  | escape _ ↦ failed trailing_escape
]
shell_loop s (c ∷ d ∷ rest) = elim (shell_step s c) [
  | stop e ↦ failed e
  | next s' ↦ shell_loop s' (d ∷ rest)
  | escape s' ↦ shell_loop (push s' d) rest
]

unfoldable pub decode_shell_argument : Bytes → Decoded
unfolding shell_loop step_in step_word finish
decode_shell_argument value = shell_loop initial value

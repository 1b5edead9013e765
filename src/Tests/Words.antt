-- ===== src/Tests/Words.antt =====
-- Entries of a parameter file, and quoted strings.
use hermetic_llvm.Vfs.Json.{json_byte, ci_json_string, json_size}
use hermetic_llvm.Vfs.Json.Size.{ci_json_string-le_size}
use hermetic_llvm.DefFile.Shell.Bounds.{decode_shell_argument-le}
use hermetic_llvm.DefFile.Shell.Word.{
  Word, open_single, in_single, close_single, decode_shell_argument_lem, plain, done,
}
use hermetic_llvm.DefFile.Shell.{
  decode_shell_argument, argument, failed, unquoted, unterminated_quote, multiple_arguments,
  empty_entry,
}
use hermetic_llvm.Vfs.Json.RoundTrip.{json_read, before, ci_json_string-read}
use hermetic_llvm.Bytes.{codes, Bytes, isspace}
use hermetic_llvm.Prelude.{ℕ, ◌+◌, ◌≤◌, ◌≡◌, refl, ◌≢◌, false, some, [], ◌∷◌, ◌++◌, arith, length}

decodes_quotes :
    decode_shell_argument (codes " 'a b'\\ c\"d\\\"e\" ") ≡ argument (codes "a b cd\"e")
unfolding decode_shell_argument isspace
decodes_quotes = refl

refuses_two : decode_shell_argument (codes "a b") ≡ failed multiple_arguments
unfolding decode_shell_argument isspace
refuses_two = refl

refuses_open : decode_shell_argument (codes "'a") ≡ failed unterminated_quote
unfolding decode_shell_argument isspace
refuses_open = refl

quoted : Word unquoted (codes "'a b'c") (codes "a bc")
quoted = open_single (
    in_single b'a' (ground arith) (
      in_single b' ' (ground arith)
        (in_single b'b' (ground arith) (close_single (plain b'c' (unfold isspace in refl) done)))))

decode_shell_argument_lem_example :
    (decode_shell_argument (codes " " ++ (codes "'a b'c" ++ codes " ")) ≡ argument (codes "a bc"))
    × ((c : ℕ) (rest : Bytes)
        → isspace c ≡ false
        → codes " " ≢ []
        → decode_shell_argument (codes " " ++ (codes "'a b'c" ++ (codes " " ++ c ∷ rest)))
          ≡ failed multiple_arguments)
    × (decode_shell_argument (codes " ") ≡ failed empty_entry)
decode_shell_argument_lem_example =
    decode_shell_argument_lem (codes " ") (codes " ") quoted (ground arith) (unfold isspace in refl)
      (unfold isspace in refl)

decode_shell_argument-le_example : length (codes "a b") ≤ length (codes "'a b'")
unfolding isspace
decode_shell_argument-le_example =
    decode_shell_argument-le (codes "'a b'") (codes "a b") (unfold decode_shell_argument in refl)

json_quote : ci_json_string (codes "a\"\\\n") ≡ codes "\"a\\\"\\\\\\n\""
unfolding ci_json_string json_byte
json_quote = refl

ci_json_string-read_example :
    json_read before (ci_json_string (codes "a\"\n")) ≡ some (codes "a\"\n")
ci_json_string-read_example = ci_json_string-read (codes "a\"\n")

ci_json_string-le_size_example :
    length (ci_json_string (codes "a\"\n")) + 1 ≤ json_size (codes "a\"\n")
ci_json_string-le_size_example = ci_json_string-le_size (codes "a\"\n")

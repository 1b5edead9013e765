-- ===== src/Tests/JsonText.antt =====
-- Runs of the JSON reader.
use hermetic_llvm.Vfs.JsonText.Lexer.{lex}
use hermetic_llvm.Bytes.{codes, strcmp}
use hermetic_llvm.Vfs.JsonText.Parser.{
  json_parse, object, member, array, item, literal, no_member, no_item, parsers,
}
use hermetic_llvm.Prelude.{◌≡◌, refl, none, some, []}

small :
    json_parse (codes "{\n \"a\\\"b\": [12,true, {}], \"\": []}")
    ≡ some (
        object (
          member
            (codes "a\"b")
            (array (
              item
                (literal (codes "12"))
                (item (literal (codes "true")) (item (object no_member) no_item))))
            (member [] (array no_item) no_member)))
unfolding json_parse lex strcmp parsers
small = refl

-- A comma behind the last item, a missing bracket and a leading zero are refused.
refuses_comma : json_parse (codes "[1,]") ≡ none
unfolding json_parse lex strcmp parsers
refuses_comma = refl

refuses_end : json_parse (codes "[1") ≡ none
unfolding json_parse lex strcmp parsers
refuses_end = refl

refuses_zero : json_parse (codes "[01]") ≡ none
unfolding json_parse lex strcmp
refuses_zero = refl

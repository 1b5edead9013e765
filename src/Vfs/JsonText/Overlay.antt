-- ===== src/Vfs/JsonText/Overlay.antt =====
-- The overlay of a forest as a JSON value, and the tokens of its text.
use hermetic_llvm.Vfs.JsonText.Lexer.{
  lex, open_object, comma, quoted, colon, close_object, Token, open_array, close_array,
}
use hermetic_llvm.Vfs.Overlay.{file_text, buffer_indent, directory_text}
use hermetic_llvm.Vfs.JsonText.Pieces.{
  Lexes, ◌▸◌, written-Lexes, buffer_indent-Lexes, ci_json_string-Lexes,
}
use hermetic_llvm.Vfs.JsonText.Parser.{
  Value, Items, object, no_item, member, value_tokens, item, text, no_member, array, Members,
  items_tokens, comma_members, members_tokens, comma_items,
}
use hermetic_llvm.Vfs.Overlay.Forest.{Forest, no_tree, file, directory, nothing, forest_text}
use hermetic_llvm.Bytes.{Bytes, codes}
use hermetic_llvm.Prelude.{ℕ, ◌+◌, refl, List, [], ◌∷◌, ◌++◌, if◌then◌else◌}

-- The object for a file.
abbrev pub file_value : Bytes → Bytes → Value
file_value name external = object (
    member (codes "type") (text (codes "file")) (
      member (codes "name") (text name)
        (member (codes "external-contents") (text external) no_member)))

-- The contents of a directory; an empty one has none.
abbrev pub contents_member : Items → Members
contents_member no_item = no_member
contents_member (item v items) = member (codes "contents") (array (item v items)) no_member

-- The object for a directory.
abbrev pub directory_value : Bytes → Items → Value
directory_value name contents = object (
    member (codes "type") (text (codes "directory"))
      (member (codes "name") (text name) (contents_member contents)))

unfoldable pub forest_items : Forest → Items
forest_items nothing = no_item
forest_items (file name external forest) = item (file_value name external) (forest_items forest)
forest_items (directory name children forest) =
    item (directory_value name (forest_items children)) (forest_items forest)

file_text-Lexes :
    (name external : Bytes) (indentation : ℕ)
    → Lexes (file_text name external indentation) (value_tokens (file_value name external))
unfolding file_text value_tokens lex
file_text-Lexes name external indentation =
    let line = buffer_indent-Lexes (indentation + 6) in
    let next = written-Lexes (codes ",\n") (comma ∷ []) (λ rest. refl) in
    written-Lexes (codes "{\n") (open_object ∷ []) (λ rest. refl)
    ▸ line
    ▸ written-Lexes (codes "\"type\": ") (quoted (codes "type") ∷ colon ∷ []) (λ rest. refl)
    ▸ ci_json_string-Lexes (codes "file")
    ▸ next
    ▸ line
    ▸ written-Lexes (codes "\"name\": ") (quoted (codes "name") ∷ colon ∷ []) (λ rest. refl)
    ▸ ci_json_string-Lexes name
    ▸ next
    ▸ line
    ▸ written-Lexes (codes "\"external-contents\": ")
        (quoted (codes "external-contents") ∷ colon ∷ []) (λ rest. refl)
    ▸ ci_json_string-Lexes external
    ▸ written-Lexes (codes "\n") [] (λ rest. refl)
    ▸ buffer_indent-Lexes (indentation + 4)
    ▸ written-Lexes (codes "}") (close_object ∷ []) (λ rest. refl)

contents_lines-Lexes :
    (contents : Bytes) (f : List Token → List Token) (indentation : ℕ)
    → Lexes contents f
    → Lexes
        (codes ",\n"
          ++ (buffer_indent (indentation + 2)
              ++ (codes "\"contents\": [\n"
                  ++ (contents ++ (buffer_indent (indentation + 2) ++ codes "]")))))
        (λ us. comma ∷ quoted (codes "contents") ∷ colon ∷ open_array ∷ f (close_array ∷ us))
unfolding lex
contents_lines-Lexes contents f indentation below =
    written-Lexes (codes ",\n") (comma ∷ []) (λ rest. refl)
    ▸ buffer_indent-Lexes (indentation + 2)
    ▸ written-Lexes (codes "\"contents\": [\n")
        (quoted (codes "contents") ∷ colon ∷ open_array ∷ []) (λ rest. refl)
    ▸ below
    ▸ buffer_indent-Lexes (indentation + 2)
    ▸ written-Lexes (codes "]") (close_array ∷ []) (λ rest. refl)

pub nothing-Lexes : Lexes [] (λ us. us)
nothing-Lexes = record { passes = λ rest ts e. e }

-- The contents of a directory, from the comma behind its name to the bracket.
contents_text-Lexes :
    (forest : Forest) (indentation : ℕ)
    → Lexes (forest_text indentation forest) (items_tokens (forest_items forest))
    → Lexes
        (if no_tree forest
          then []
          else codes ",\n"
            ++ (buffer_indent (indentation + 2)
                ++ (codes "\"contents\": [\n"
                    ++ (forest_text indentation forest
                        ++ (buffer_indent (indentation + 2) ++ codes "]")))))
        (λ us.
          comma_members
            (contents_member (forest_items forest))
            (members_tokens (contents_member (forest_items forest)) us))
unfolding forest_items value_tokens
contents_text-Lexes nothing indentation below = nothing-Lexes
contents_text-Lexes (file name external forest) indentation below =
    let trees = file name external forest in
    contents_lines-Lexes (forest_text indentation trees) (items_tokens (forest_items trees))
      indentation below
contents_text-Lexes (directory name children forest) indentation below =
    let trees = directory name children forest in
    contents_lines-Lexes (forest_text indentation trees) (items_tokens (forest_items trees))
      indentation below

pub directory_text-Lexes :
    (name : Bytes) (forest : Forest) (indentation : ℕ)
    → Lexes (forest_text indentation forest) (items_tokens (forest_items forest))
    → Lexes
        (directory_text name (no_tree forest) (forest_text indentation forest) indentation)
        (value_tokens (directory_value name (forest_items forest)))
unfolding directory_text value_tokens lex
directory_text-Lexes name forest indentation below =
    let line = buffer_indent-Lexes (indentation + 2) in
    written-Lexes (codes "{\n") (open_object ∷ []) (λ rest. refl)
    ▸ line
    ▸ written-Lexes (codes "\"type\": ") (quoted (codes "type") ∷ colon ∷ []) (λ rest. refl)
    ▸ ci_json_string-Lexes (codes "directory")
    ▸ written-Lexes (codes ",\n") (comma ∷ []) (λ rest. refl)
    ▸ line
    ▸ written-Lexes (codes "\"name\": ") (quoted (codes "name") ∷ colon ∷ []) (λ rest. refl)
    ▸ ci_json_string-Lexes name
    ▸ contents_text-Lexes forest indentation below
    ▸ written-Lexes (codes "\n") [] (λ rest. refl)
    ▸ buffer_indent-Lexes indentation
    ▸ written-Lexes (codes "}") (close_object ∷ []) (λ rest. refl)

-- A comma where another entry follows.
comma_text-Lexes :
    (forest : Forest)
    → Lexes (if no_tree forest then [] else codes ",") (comma_items (forest_items forest))
unfolding forest_items lex
comma_text-Lexes nothing = nothing-Lexes
comma_text-Lexes (file _ _ _) = written-Lexes (codes ",") (comma ∷ []) (λ rest. refl)
comma_text-Lexes (directory _ _ _) = written-Lexes (codes ",") (comma ∷ []) (λ rest. refl)

pub forest_text-Lexes :
    (forest : Forest) (indentation : ℕ)
    → Lexes (forest_text indentation forest) (items_tokens (forest_items forest))
unfolding forest_items value_tokens forest_text lex
forest_text-Lexes nothing indentation = nothing-Lexes
forest_text-Lexes (file name external forest) indentation =
    buffer_indent-Lexes (indentation + 4)
    ▸ file_text-Lexes name external indentation
    ▸ comma_text-Lexes forest
    ▸ written-Lexes (codes "\n") [] (λ rest. refl)
    ▸ forest_text-Lexes forest indentation
forest_text-Lexes (directory name children forest) indentation =
    buffer_indent-Lexes (indentation + 4)
    ▸ directory_text-Lexes name children (indentation + 4)
        (forest_text-Lexes children (indentation + 4))
    ▸ comma_text-Lexes forest
    ▸ written-Lexes (codes "\n") [] (λ rest. refl)
    ▸ forest_text-Lexes forest indentation

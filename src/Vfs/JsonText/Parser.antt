-- ===== src/Vfs/JsonText/Parser.antt =====
-- The values of JSON, their tokens, and a parser.
use hermetic_llvm.Vfs.JsonText.Lexer.{
  Token, quoted, close_array, close_object, word, lex, comma, open_array, between, open_object,
  colon,
}
use hermetic_llvm.Bytes.{Bytes}
use hermetic_llvm.Prelude.{
  ℕ, zero, suc, Bool, true, false, Option, none, some, List, [], ◌∷◌, length,
}

mutual
  pub data Value : Type 0 where
    text : Bytes → Value
    -- a number or a literal name, as it is spelled
    literal : Bytes → Value
    array : Items → Value
    object : Members → Value

  pub data Items : Type 0 where
    no_item : Items
    item : Value → Items → Items

  pub data Members : Type 0 where
    no_member : Members
    member : Bytes → Value → Members → Members

abbrev pub no_items : Items → Bool
no_items no_item = true
no_items (item _ _) = false

abbrev pub comma_items : Items → List Token → List Token
comma_items no_item ts = ts
comma_items (item _ _) ts = comma ∷ ts

abbrev pub comma_members : Members → List Token → List Token
comma_members no_member ts = ts
comma_members (member _ _ _) ts = comma ∷ ts

-- The tokens of a value, before other tokens.
unfoldable mutual
  pub value_tokens : Value → List Token → List Token
  value_tokens (text s) ts = quoted s ∷ ts
  value_tokens (literal w) ts = word w ∷ ts
  value_tokens (array items) ts = open_array ∷ items_tokens items (close_array ∷ ts)
  value_tokens (object members) ts = open_object ∷ members_tokens members (close_object ∷ ts)

  pub items_tokens : Items → List Token → List Token
  items_tokens no_item ts = ts
  items_tokens (item v items) ts = value_tokens v (comma_items items (items_tokens items ts))

  pub members_tokens : Members → List Token → List Token
  members_tokens no_member ts = ts
  members_tokens (member name v members) ts =
      quoted name ∷ colon ∷ value_tokens v (comma_members members (members_tokens members ts))

-- What a parser gives: what it has read, and the tokens behind it.
abbrev pub Parser : Type 0 → Type 0
Parser A = List Token → Option (A × List Token)

-- The parsers of values, of the items behind a bracket, and of the members behind a brace.
pub record Parsers : Type 0 where
  pub value : Parser Value
  pub items : Parser Items
  pub members : Parser Members

abbrev pub array_of : Option (Items × List Token) → Option (Value × List Token)
array_of none = none
array_of (some (items, rest)) = some (array items, rest)

abbrev pub array_from : Parsers → Parser Value
array_from p (close_array ∷ ts) = some (array no_item, ts)
array_from p ts = array_of (p.items ts)

abbrev pub object_of : Option (Members × List Token) → Option (Value × List Token)
object_of none = none
object_of (some (members, rest)) = some (object members, rest)

abbrev pub object_from : Parsers → Parser Value
object_from p (close_object ∷ ts) = some (object no_member, ts)
object_from p ts = object_of (p.members ts)

abbrev pub value_from : Parsers → Parser Value
value_from p (quoted s ∷ ts) = some (text s, ts)
value_from p (word w ∷ ts) = some (literal w, ts)
value_from p (open_array ∷ ts) = array_from p ts
value_from p (open_object ∷ ts) = object_from p ts
value_from p _ = none

abbrev pub more_items : Value → Option (Items × List Token) → Option (Items × List Token)
more_items v none = none
more_items v (some (items, rest)) = some (item v items, rest)

-- Behind an item: the end of the array, or a comma and the next item.
abbrev pub items_behind : Parsers → Option (Value × List Token) → Option (Items × List Token)
items_behind p (some (v, close_array ∷ ts)) = some (item v no_item, ts)
items_behind p (some (v, comma ∷ ts)) = more_items v (p.items ts)
items_behind p _ = none

abbrev pub items_from : Parsers → Parser Items
items_from p ts = items_behind p (p.value ts)

abbrev pub more_members :
    Bytes → Value → Option (Members × List Token) → Option (Members × List Token)
more_members name v none = none
more_members name v (some (members, rest)) = some (member name v members, rest)

abbrev pub members_behind :
    Parsers → Bytes → Option (Value × List Token) → Option (Members × List Token)
members_behind p name (some (v, close_object ∷ ts)) = some (member name v no_member, ts)
members_behind p name (some (v, comma ∷ ts)) = more_members name v (p.members ts)
members_behind p name _ = none

abbrev pub members_from : Parsers → Parser Members
members_from p (quoted name ∷ colon ∷ ts) = members_behind p name (p.value ts)
members_from p _ = none

-- The fuel is the number of tokens at most.
unfoldable pub parsers : ℕ → Parsers
parsers zero = record { value = λ ts. none; items = λ ts. none; members = λ ts. none }
parsers (suc fuel) =
    let p = parsers fuel in
    record { value = value_from p; items = items_from p; members = members_from p }

-- A value that takes all tokens.
abbrev pub whole : Option (Value × List Token) → Option Value
whole (some (v, [])) = some v
whole _ = none

unfoldable pub json_parse : Bytes → Option Value
json_parse source = elim (lex between source) [
  | none ↦ none
  | some ts ↦ whole ((parsers (length ts)).value ts)
]

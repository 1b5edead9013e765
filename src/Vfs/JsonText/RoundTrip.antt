-- ===== src/Vfs/JsonText/RoundTrip.antt =====
-- The parser on the tokens of a value.
use hermetic_llvm.Vfs.JsonText.Lexer.{Token, lex, between, close_array, close_object, comma}
use hermetic_llvm.Bytes.{Bytes}
use hermetic_llvm.Vfs.JsonText.Parser.{
  parsers, Value, json_parse, value_tokens, Parsers, text, array_from, literal, array, item, object,
  comma_items, Items, Members, items_tokens, member, members_tokens, no_item, no_member, array_of,
  object_of, items_behind, more_items, members_behind, more_members,
}
use hermetic_llvm.Prelude.{
  ℕ, zero, suc, ◌+◌, ◌≤◌, ◌≡◌, refl, ◌∙◌, some, List, [], ◌∷◌, arith, length, ap,
}

unfoldable mutual
  weight : Value → ℕ
  weight (text s) = 1
  weight (literal w) = 1
  weight (array items) = suc (weight_items items)
  weight (object members) = suc (weight_members members)

  weight_items : Items → ℕ
  weight_items no_item = 0
  weight_items (item v items) = suc (weight v + weight_items items)

  weight_members : Members → ℕ
  weight_members no_member = 0
  weight_members (member name v members) = suc (weight v + weight_members members)

-- A value begins with no closing bracket.
array_from_value :
    (p : Parsers) (v : Value) (ts : List Token)
    → array_from p (value_tokens v ts) ≡ array_of (p.items (value_tokens v ts))
unfolding value_tokens
array_from_value p (text s) ts = refl
array_from_value p (literal w) ts = refl
array_from_value p (array items) ts = refl
array_from_value p (object members) ts = refl

mutual
  unfolding parsers value_tokens weight

  value_parsed :
      (v : Value) (fuel : ℕ) (ts : List Token)
      → weight v ≤ fuel
      → (parsers fuel).value (value_tokens v ts) ≡ some (v, ts)
  value_parsed (text s) zero ts h = absurd (omega arith)
  value_parsed (text s) (suc fuel) ts h = refl
  value_parsed (literal w) zero ts h = absurd (omega arith)
  value_parsed (literal w) (suc fuel) ts h = refl
  value_parsed (array items) zero ts h = absurd (omega arith)
  value_parsed (array no_item) (suc fuel) ts h = refl
  value_parsed (array (item v items)) (suc fuel) ts h =
      array_from_value (parsers fuel) v (comma_items items (items_tokens items (close_array ∷ ts)))
      ∙ ap array_of (items_parsed v items fuel ts (omega arith))
  value_parsed (object members) zero ts h = absurd (omega arith)
  value_parsed (object no_member) (suc fuel) ts h = refl
  value_parsed (object (member name v members)) (suc fuel) ts h =
      ap object_of (members_parsed name v members fuel ts (omega arith))

  items_parsed :
      (v : Value) (items : Items) (fuel : ℕ) (ts : List Token)
      → weight_items (item v items) ≤ fuel
      → (parsers fuel).items (items_tokens (item v items) (close_array ∷ ts))
        ≡ some (item v items, ts)
  items_parsed v items zero ts h = absurd (omega arith)
  items_parsed v no_item (suc fuel) ts h =
      ap (items_behind (parsers fuel)) (value_parsed v fuel (close_array ∷ ts) (omega arith))
  items_parsed v (item w items) (suc fuel) ts h =
      let rest = comma ∷ items_tokens (item w items) (close_array ∷ ts) in
      ap (items_behind (parsers fuel)) (value_parsed v fuel rest (omega arith))
      ∙ ap (more_items v) (items_parsed w items fuel ts (omega arith))

  members_parsed :
      (name : Bytes) (v : Value) (members : Members) (fuel : ℕ) (ts : List Token)
      → weight_members (member name v members) ≤ fuel
      → (parsers fuel).members (members_tokens (member name v members) (close_object ∷ ts))
        ≡ some (member name v members, ts)
  members_parsed name v members zero ts h = absurd (omega arith)
  members_parsed name v no_member (suc fuel) ts h =
      ap (members_behind (parsers fuel) name)
        (value_parsed v fuel (close_object ∷ ts) (omega arith))
  members_parsed name v (member other w members) (suc fuel) ts h =
      let rest = comma ∷ members_tokens (member other w members) (close_object ∷ ts) in
      ap (members_behind (parsers fuel) name) (value_parsed v fuel rest (omega arith))
      ∙ ap (more_members name v) (members_parsed other w members fuel ts (omega arith))

mutual
  unfolding value_tokens weight

  weight_value-le :
      (v : Value) (ts : List Token) → weight v + length ts ≤ length (value_tokens v ts)
  weight_value-le (text s) ts = omega arith
  weight_value-le (literal w) ts = omega arith
  weight_value-le (array items) ts = omega (arith, weight_items-le items (close_array ∷ ts))
  weight_value-le (object members) ts = omega (arith, weight_members-le members (close_object ∷ ts))

  weight_items-le :
      (items : Items) (ts : List Token)
      → weight_items items + length ts ≤ suc (length (items_tokens items ts))
  weight_items-le no_item ts = omega arith
  weight_items-le (item v no_item) ts = omega (arith, weight_value-le v ts)
  weight_items-le (item v (item w items)) ts = omega (
    arith,
    weight_value-le v (comma ∷ items_tokens (item w items) ts),
    weight_items-le (item w items) ts,
  )

  weight_members-le :
      (members : Members) (ts : List Token)
      → weight_members members + length ts ≤ suc (length (members_tokens members ts))
  weight_members-le no_member ts = omega arith
  weight_members-le (member name v no_member) ts = omega (arith, weight_value-le v ts)
  weight_members-le (member name v (member other w members)) ts = omega (
    arith,
    weight_value-le v (comma ∷ members_tokens (member other w members) ts),
    weight_members-le (member other w members) ts,
  )

-- A text whose tokens are those of a value is read as the value: the fuel is enough.
pub json_parse_value :
    (source : Bytes) (v : Value)
    → lex between source ≡ some (value_tokens v [])
    → json_parse source ≡ some v
unfolding json_parse
json_parse_value source v e =
    rw
      (
        json_parse,
        e,
        value_parsed v (length (value_tokens v [])) [] (omega (arith, weight_value-le v [])),
      )
      refl

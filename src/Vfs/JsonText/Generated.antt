-- ===== src/Vfs/JsonText/Generated.antt =====
-- The overlay of tools/case_insensitive_vfs/vfs.c as a JSON reader sees it.
use hermetic_llvm.Vfs.JsonText.RoundTrip.{json_parse_value}
use hermetic_llvm.Vfs.JsonText.Pieces.{◌▸◌, buffer_indent-Lexes, Lexes, written-Lexes}
use mathlib.Core.List.{Perm}
use hermetic_llvm.Vfs.Entries.Collect.{IsPreferred}
use hermetic_llvm.Vfs.JsonText.Overlay.{
  nothing-Lexes, directory_value, forest_items, directory_text-Lexes, forest_text-Lexes,
}
use hermetic_llvm.Vfs.Overlay.Forest.{Forest, Describes}
use hermetic_llvm.Vfs.Overlay.Roots.{AreOverlays, one_more, generate-AreOverlays, no_overlay}
use hermetic_llvm.Bytes.{Bytes, strcmp, codes}
use hermetic_llvm.Vfs.Entries.{Qsort, Entry, list_entries}
use hermetic_llvm.Vfs.Overlay.{
  FileSystem, RootEntry, RootSort, no_more, case_insensitive_vfs_generate, rendered, make_roots,
  RootsAscend,
}
use hermetic_llvm.Vfs.JsonText.Parser.{
  Items, no_items, value_tokens, Value, no_item, object, member, items_tokens, literal, comma_items,
  item, array, no_member, json_parse,
}
use hermetic_llvm.Vfs.JsonText.Lexer.{
  lex, open_object, quoted, comma, colon, word, open_array, close_array, Token, between,
  close_object,
}
use hermetic_llvm.Prelude.{
  ℕ, ◌≡◌, refl, sym, ap, subst, ◌∙◌, Bool, true, false, some, List, [], ◌∷◌, ◌++◌, append-nil,
  if◌then◌else◌,
}

-- The items of a list describe the directories of the roots, in their order: each is the object of a
-- forest that describes the preferred entries of its directory and all below them.
pub data AreTrees (fs : FileSystem) : List RootEntry → Items → Type 0 where
  no_root_left : AreTrees fs [] no_item
  a_tree :
      (r : RootEntry) (roots : List RootEntry) (items : Items) (forest : Forest)
      (names : List Bytes) (kept : List Entry)
      → fs.listing r.root ≡ some (names, false)
      → IsPreferred (list_entries names) kept
      → Describes fs r.root kept forest
      → AreTrees fs roots items
      → AreTrees fs (r ∷ roots) (item (directory_value r.generic (forest_items forest)) items)

-- The object of an overlay.
abbrev pub overlay_value : Items → Value
overlay_value items = object (
    member (codes "version") (literal (codes "0")) (
      member (codes "case-sensitive") (literal (codes "false"))
        (member (codes "roots") (array items) no_member)))

abbrev HasTrees : FileSystem → List RootEntry → Bytes → Type 0
HasTrees fs roots body =
    (items : Items) × AreTrees fs roots items
    × (no_items items ≡ no_more roots)
    × Lexes body (items_tokens items)

comma_more-Lexes :
    (items : Items) (last : Bool)
    → no_items items ≡ last
    → Lexes (if last then [] else codes ",") (comma_items items)
unfolding lex
comma_more-Lexes no_item true e = nothing-Lexes
comma_more-Lexes (item _ _) false e = written-Lexes (codes ",") (comma ∷ []) (λ rest. refl)
comma_more-Lexes no_item false e = cc
comma_more-Lexes (item _ _) true e = cc

overlays-HasTrees :
    (fs : FileSystem) (roots : List RootEntry) (body : Bytes)
    → AreOverlays fs roots body
    → HasTrees fs roots body
unfolding lex value_tokens
overlays-HasTrees fs _ _ no_overlay = (no_item, no_root_left, refl, nothing-Lexes)
overlays-HasTrees fs _ _ (one_more r roots t more o others) =
    let (items, trees, same, lexed) = overlays-HasTrees fs roots more others in
    let here = directory_text-Lexes r.generic o.forest 4 (forest_text-Lexes o.forest 4) in
    (
      item (directory_value r.generic (forest_items o.forest)) items,
      a_tree r roots items o.forest o.names o.kept o.listed o.chosen o.described trees,
      refl,
      buffer_indent-Lexes 4
          ▸ subst
              (λ (v : Bytes).
                Lexes v (value_tokens (directory_value r.generic (forest_items o.forest))))
              (sym o.spelled) here
          ▸ comma_more-Lexes items (no_more roots) same
          ▸ written-Lexes (codes "\n") [] (λ rest. refl)
          ▸ lexed,
    )

overlay_text-Lexes :
    (body : Bytes) (items : Items)
    → Lexes body (items_tokens items)
    → Lexes
        (codes "{\n  \"version\": 0,\n  \"case-sensitive\": false,\n  \"roots\": [\n"
          ++ (body ++ codes "  ]\n}\n"))
        (value_tokens (overlay_value items))
unfolding lex value_tokens strcmp
overlay_text-Lexes body items lexed =
    written-Lexes (codes "{\n  \"version\": 0,\n  \"case-sensitive\": false,\n  \"roots\": [\n")
      (open_object
        ∷ quoted (codes "version")
        ∷ colon
        ∷ word (codes "0")
        ∷ comma
        ∷ quoted (codes "case-sensitive")
        ∷ colon
        ∷ word (codes "false")
        ∷ comma
        ∷ quoted (codes "roots")
        ∷ colon
        ∷ open_array
        ∷ [])
      (λ rest. refl)
    ▸ lexed
    ▸ written-Lexes (codes "  ]\n}\n") (close_array ∷ close_object ∷ []) (λ rest. refl)

lex_whole :
    {source : Bytes} {f : List Token → List Token}
    → Lexes source f
    → lex between source ≡ some (f [])
unfolding lex
lex_whole {source} {f} lexed = ap (lex between) (sym (append-nil source)) ∙ lexed.passes [] [] refl

-- Where `case_insensitive_vfs_generate` gives a text, a JSON reader reads it as an object with the
-- version 0, `case-sensitive` false, and the roots: with any `qsort`, the roots are rearranged so that
-- their generic paths ascend, and each is the object of its generic path and of a forest that
-- describes its directory.
pub generate-json_parse :
    (fuel : ℕ) (q : Qsort) (s : RootSort) (fs : FileSystem) (roots : List Bytes) (source : Bytes)
    → case_insensitive_vfs_generate fuel q s fs roots ≡ rendered source
    → (sorted : List RootEntry) × Perm sorted (make_roots roots)
      × RootsAscend sorted
      × (items : Items) × AreTrees fs sorted items
      × (json_parse source ≡ some (overlay_value items))
generate-json_parse fuel q s fs roots source e =
    let (some_root, sorted, perm, ascend, body, overlays, spelled) =
      generate-AreOverlays fuel q s fs roots source e in
    let (items, trees, same, lexed) = overlays-HasTrees fs sorted body overlays in
    (
      sorted,
      perm,
      ascend,
      items,
      trees,
      json_parse_value source (overlay_value items)
          (rw spelled (lex_whole (overlay_text-Lexes body items lexed))),
    )

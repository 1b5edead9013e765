-- ===== src/DefFile/Generator/Pieces.antt =====
-- The text that `write_def_file` of tools/def_file_generator/def_file_generator.c prints.
use hermetic_llvm.Bytes.{Bytes, codes}
use hermetic_llvm.DefFile.Definition.{def_file_text, data_lines, symbol_lines, library_line}
use hermetic_llvm.DefFile.Symbols.{SymbolSets}
use hermetic_llvm.DefFile.Generator.{
  Outside, def_file_pieces, library_pieces, data_pieces, symbol_pieces, print_pieces,
}
use hermetic_llvm.Prelude.{
  ◌≡◌, refl, sym, ap, ◌∙◌, none, List, [], ◌∷◌, ◌++◌, append_assoc, append-nil,
}

abbrev joined : List Bytes → Bytes
joined [] = []
joined (piece ∷ pieces) = piece ++ joined pieces

joined-append : (a b : List Bytes) → joined (a ++ b) ≡ joined a ++ joined b
joined-append [] b = refl
joined-append (piece ∷ a) b =
    ap (λ t. piece ++ t) (joined-append a b) ∙ sym (append_assoc piece (joined a) (joined b))

joined-data_pieces : (symbols : List Bytes) → joined (data_pieces symbols) ≡ data_lines symbols
unfolding data_pieces data_lines
joined-data_pieces [] = refl
joined-data_pieces (symbol ∷ symbols) =
    ap (λ t. b'\t' ∷ t)
      (append_assoc symbol (codes " \t DATA\n") (joined (data_pieces symbols))
        ∙ ap (λ t. symbol ++ (codes " \t DATA\n" ++ t)) (joined-data_pieces symbols))

joined-symbol_pieces :
    (symbols : List Bytes) → joined (symbol_pieces symbols) ≡ symbol_lines symbols
unfolding symbol_pieces symbol_lines
joined-symbol_pieces [] = refl
joined-symbol_pieces (symbol ∷ symbols) =
    ap (λ t. b'\t' ∷ t)
      (append_assoc symbol (b'\n' ∷ []) (joined (symbol_pieces symbols))
        ∙ ap (λ t. symbol ++ b'\n' ∷ t) (joined-symbol_pieces symbols))

joined-library_pieces :
    (dll_name : Bytes) (rest : List Bytes)
    → joined (library_pieces dll_name ++ rest) ≡ library_line dll_name (joined rest)
joined-library_pieces [] rest = refl
joined-library_pieces (c ∷ cs) rest =
    ap (λ t. codes "LIBRARY " ++ t) (append_assoc (c ∷ cs) (b'\n' ∷ []) (joined rest))

def_file_pieces-joined :
    (sets : SymbolSets) (dll_name : Bytes)
    → joined (def_file_pieces sets dll_name) ≡ def_file_text sets dll_name
unfolding def_file_pieces def_file_text
def_file_pieces-joined sets dll_name =
    let listed = data_pieces sets.data_symbols.values in
    let symbols = symbol_pieces sets.symbols.values in
    joined-library_pieces dll_name (codes "EXPORTS \n" ∷ (listed ++ symbols))
    ∙ ap (λ t. library_line dll_name (codes "EXPORTS \n" ++ t))
        (joined-append listed symbols
          ∙ ap (λ t. t ++ joined symbols) (joined-data_pieces sets.data_symbols.values)
          ∙ ap (λ t. data_lines sets.data_symbols.values ++ t)
              (joined-symbol_pieces sets.symbols.values))

print_pieces-joined :
    (out : Outside) (path written : Bytes) (pieces : List Bytes)
    → ((before piece : Bytes) → out.prints path before piece ≡ none)
    → print_pieces out path written pieces ≡ written ++ joined pieces
unfolding print_pieces
print_pieces-joined out path written [] h = sym (append-nil written)
print_pieces-joined out path written (piece ∷ pieces) h =
    rw (print_pieces, h written piece)
      (print_pieces-joined out path (written ++ piece) pieces h
        ∙ append_assoc written piece (joined pieces))

-- Where no `fprintf` to the output fails, the definition file is printed whole.
pub print_pieces-def_file_text :
    (out : Outside) (path dll_name : Bytes) (sets : SymbolSets)
    → ((before piece : Bytes) → out.prints path before piece ≡ none)
    → print_pieces out path [] (def_file_pieces sets dll_name) ≡ def_file_text sets dll_name
print_pieces-def_file_text out path dll_name sets h =
    print_pieces-joined out path [] (def_file_pieces sets dll_name) h
    ∙ def_file_pieces-joined sets dll_name

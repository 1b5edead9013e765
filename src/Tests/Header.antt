-- ===== src/Tests/Header.antt =====
-- Runs of the header parser.
use hermetic_llvm.Bytes.{str_eq, strcmp, codes}
use hermetic_llvm.HeaderParser.{Outside, main, execute, became, Parsed, main-Parsed}
use hermetic_llvm.Prelude.{◌≡◌, refl, true, none, some, [], ◌∷◌, if◌then◌else◌}

abbrev outside : Outside
outside = record {
  getenv = λ name.
      if str_eq name (codes "PARSE_HEADER")
      then some (codes "h")
      else if str_eq name (codes "LLVM_CLANGXX")
      then some (codes "clang")
      else none;
  opens = λ p. true;
  closes = λ p. true;
  execs = λ c. true;
}

becomes_clang :
    main outside (codes "-c" ∷ []) ≡ (codes "h" ∷ [], became (codes "clang" ∷ codes "-c" ∷ []))
unfolding main execute strcmp
becomes_clang = refl

main-Parsed_example : Parsed outside (codes "-c" ∷ []) (main outside (codes "-c" ∷ []))
main-Parsed_example = main-Parsed outside (codes "-c" ∷ [])

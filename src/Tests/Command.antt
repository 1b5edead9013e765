-- ===== src/Tests/Command.antt =====
-- Runs of the program that writes an overlay.
use hermetic_llvm.Vfs.CommandLine.Written.{HoldsOverlay, main-HoldsOverlay}
use hermetic_llvm.Bytes.{Bytes, strcmp, codes}
use hermetic_llvm.Tests.Overlay.{disk, roots_by_insertion, header, footer, overlay, generates}
use hermetic_llvm.Tests.Directory.{by_insertion}
use hermetic_llvm.Vfs.CommandLine.{
  main, parse_arguments, no_arguments, OutputFile, Files, put, finish_overlay, write_overlay,
}
use hermetic_llvm.Vfs.CommandLine.Laws.{
  Flag, spell, roots_of, last_output, arguments, parse_arguments_lem,
}
use hermetic_llvm.Vfs.CommandLine.Success.{Succeeds, main_zero}
use hermetic_llvm.Vfs.Overlay.{entry_text}
use hermetic_llvm.Prelude.{◌≡◌, refl, ◌≢◌, ◌↔◌, ◌⊎◌, true, none, some, List, [], ◌∷◌, ◌++◌}

abbrev argv : List Bytes
argv = codes "-output" ∷ codes "o" ∷ codes "-root" ∷ codes "r" ∷ []

parses : parse_arguments argv no_arguments ≡ some (arguments (codes "r" ∷ []) (some (codes "o")))
unfolding parse_arguments strcmp
parses = refl

refuses : parse_arguments (codes "-root" ∷ []) no_arguments ≡ none
unfolding parse_arguments
refuses = refl

parse_arguments_lem_example :
    ((flags : List Flag) × (spell flags ≡ argv)
      × (parse_arguments argv no_arguments
          ≡ some (arguments (roots_of flags) (last_output none flags))))
    ⊎ (((flags : List Flag) → spell flags ≢ argv) × (parse_arguments argv no_arguments ≡ none))
parse_arguments_lem_example = parse_arguments_lem argv

abbrev healthy : OutputFile
healthy = record { opens = λ p. true; stops = none; closes = none }

abbrev no_files : Files
no_files p = none

abbrev text : Bytes
text = header ++ (entry_text 0 overlay true [] ++ footer)

writes :
    main 2 by_insertion roots_by_insertion disk healthy no_files argv
    ≡ some (0, put no_files (codes "o") text)
unfolding main finish_overlay write_overlay
writes = rw (main, parses, generates) refl

main_zero_example :
    (main 2 by_insertion roots_by_insertion disk healthy no_files argv
      ≡ some (0, put no_files (codes "o") text))
    ↔ Succeeds 2 by_insertion roots_by_insertion disk healthy no_files argv
        (put no_files (codes "o") text)
main_zero_example =
    main_zero 2 by_insertion roots_by_insertion disk healthy no_files
      (put no_files (codes "o") text) argv

main-HoldsOverlay_example :
    (flags : List Flag) × (path : Bytes) × (spell flags ≡ argv)
    × (last_output none flags ≡ some path)
    × HoldsOverlay disk (roots_of flags) (put no_files (codes "o") text path)
    × ((other : Bytes) → other ≢ path → put no_files (codes "o") text other ≡ no_files other)
main-HoldsOverlay_example =
    main-HoldsOverlay 2 by_insertion roots_by_insertion disk healthy no_files
      (put no_files (codes "o") text) argv writes

-- ===== src/Tests/Modules.antt =====
-- A parameter file with one header that has a size and one that has none.
use hermetic_llvm.ModuleMap.Main.{
  Outside, Files, put, map_text, main, main-map_text, file_size, write_module_map, close_output,
  ended,
}
use hermetic_llvm.ModuleMap.{
  print_module_map, print_lines, params_lines, null_store, module_text, written, modules,
  is_missing, print_module_map_lem,
}
use hermetic_llvm.Bytes.{Bytes, codes, str_eq, c_string, strcmp}
use hermetic_llvm.Prelude.{
  ◌≡◌, refl, ◌≢◌, Option, none, some, ◌∷◌, ◌++◌, if◌then◌else◌, any_of, true, [], arith,
}

abbrev sizes : Bytes → Option Bytes
sizes path = if str_eq path (codes "a.h") then some (codes "12") else none

prints_module :
    print_module_map sizes (codes "a.h\n\n")
    ≡ written
        (codes
          "module \"crosstool\" [system] {\n  module \"a.h\" {\n    textual header \"a.h\" { size 12 }\n  }\n}\n")
        0
unfolding print_module_map print_lines params_lines module_text c_string strcmp
prints_module = refl

print_module_map_lem_example :
    ((rest : Bytes)
      → codes "a.h\nb" ≡ b'\n' ∷ rest
      → print_module_map sizes (codes "a.h\nb") ≡ null_store)
    × (((rest : Bytes) → codes "a.h\nb" ≢ b'\n' ∷ rest)
        → print_module_map sizes (codes "a.h\nb")
          ≡ written
              (codes "module \"crosstool\" [system] {\n"
                ++ modules sizes (params_lines (codes "a.h\nb")))
              (if any_of (is_missing sizes) (params_lines (codes "a.h\nb")) then 1 else 0))
print_module_map_lem_example = print_module_map_lem sizes (codes "a.h\nb")

abbrev outside : Outside
outside = record {
  stat = λ path. if str_eq path (codes "a.h") then some 12 else none;
  decimal = λ n. codes "12";
  opens = λ path. true;
  stops = none;
  closes = true;
}

abbrev files : Files
files path = if str_eq path (codes "p") then some (codes "a.h\nb") else none

reports_missing :
    main outside files (codes "o" ∷ codes "@p" ∷ [])
    ≡ ended 1 (
        put files (codes "o") (
          codes
            "module \"crosstool\" [system] {\n  module \"a.h\" {\n    textual header \"a.h\" { size 12 }\n  }\n}\n"))
unfolding main write_module_map close_output file_size print_module_map print_lines params_lines
    module_text c_string strcmp
reports_missing = refl

main-map_text_example :
    main outside files (codes "o" ∷ codes "@p" ∷ [])
    ≡ ended
        (if any_of (is_missing (file_size outside)) (params_lines (codes "a.h\nb")) then 1 else 0)
        (put files (codes "o") (map_text outside (codes "a.h\nb")))
unfolding strcmp
main-map_text_example =
    main-map_text outside files (codes "o") (codes "p") (codes "a.h\nb") refl refl
      (λ rest e. absurd (ground arith)) refl refl refl

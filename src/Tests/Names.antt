-- ===== src/Tests/Names.antt =====
-- The names that the generator accepts and rewrites.
use hermetic_llvm.Bytes.{strcmp, isupper, isdigit, strrchr, Bytes, codes}
use hermetic_llvm.DefFile.Symbols.Normalize.{IsDecorated, normalize_stdcall_lem}
use hermetic_llvm.DefFile.Symbols.{normalize_stdcall, gnu_skipped, gnu_excluded_symbol}
use hermetic_llvm.Prelude.{◌≡◌, refl, ◌⊎◌, true}

undecorates : normalize_stdcall (codes "_foo@12") ≡ codes "foo"
unfolding normalize_stdcall strrchr isdigit
undecorates = refl

keeps_fastcall : normalize_stdcall (codes "@foo@12") ≡ codes "@foo@12"
unfolding normalize_stdcall
keeps_fastcall = refl

excludes_startup : gnu_skipped (codes "DllMain") b'T' ≡ true
unfolding gnu_skipped gnu_excluded_symbol isupper strcmp
excludes_startup = refl

normalize_stdcall_lem_example :
    ((name : Bytes)
      → IsDecorated (codes "_foo@12") name
      → normalize_stdcall (codes "_foo@12") ≡ name)
    × ((normalize_stdcall (codes "_foo@12") ≡ codes "_foo@12")
        ⊎ IsDecorated (codes "_foo@12") (normalize_stdcall (codes "_foo@12")))
normalize_stdcall_lem_example = normalize_stdcall_lem (codes "_foo@12")

-- ===== src/BigobjFixture.antt =====
-- tools/def_file_generator/bigobj_fixture_writer.c: the assembly of an object with more sections than
-- a COFF object of the standard kind can have.
pub mod Laws
use hermetic_llvm.Bytes.{Bytes, codes}
use hermetic_llvm.Prelude.{
  ℕ, zero, suc, ◌+◌, ◌/◌, ◌%◌, Bool, not, Option, none, some, List, [], ◌∷◌, ◌++◌, ltb,
  if◌then◌else◌,
}

-- Whether the output opens, and whether it closes without an error.
pub record Output : Type 0 where
  pub opens : Bool
  pub closes : Bool

abbrev pub digit : ℕ → ℕ
digit n = b'0' + n % 10

-- `%05d`, for a number below 100000.
abbrev pub padded : ℕ → Bytes
padded n = digit (n / 10000) ∷ digit (n / 1000) ∷ digit (n / 100) ∷ digit (n / 10) ∷ digit n ∷ []

unfoldable pub section_text : ℕ → Bytes
section_text section = codes ".section .sec" ++ (padded section ++ codes ",\"dr\"\n.byte 0\n")

-- The loop, on fuel for the tests of its condition.
unfoldable pub section_loop : ℕ → ℕ → Option Bytes
section_loop zero section = none
section_loop (suc fuel) section =
    let rest = section_loop fuel (section + 1) in
    if ltb section 65300
    then elim rest [ none ↦ none | some texts ↦ some (section_text section ++ texts) ]
    else some []

abbrev pub head_text : Bytes
head_text = codes ".section .text$big,\"xr\"\n.globl bigobj_function\nbigobj_function:\n  ret\n"

-- What is printed.
unfoldable pub fixture_text : Option Bytes
fixture_text = elim (section_loop 65301 0) [ none ↦ none | some texts ↦ some (head_text ++ texts) ]

-- The status, and what was printed where the output opens, on the arguments behind the program's
-- name.
unfoldable pub main : Output → List Bytes → ℕ × Option (Option Bytes)
main out (path ∷ []) =
    if not out.opens
    then (1, none)
    else if not out.closes
    then (1, some fixture_text)
    else (0, some fixture_text)
main out _ = (1, none)

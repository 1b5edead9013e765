-- ===== src/BigobjFixture/Laws.antt =====
-- The sections that tools/def_file_generator/bigobj_fixture_writer.c prints, and their names.
use hermetic_llvm.Bytes.{Bytes}
use hermetic_llvm.BigobjFixture.{padded, section_loop, fixture_text, head_text, section_text}
use hermetic_llvm.Prelude.{
  ℕ, zero, suc, ◌+◌, ◌-◌, ◌*◌, ◌<◌, ◌≡◌, refl, sym, ap, ◌∙◌, some, [], ◌∷◌, ◌++◌, arith,
}

-- So many sections from a number on.
unfoldable pub sections : ℕ → ℕ → Bytes
sections zero section = []
sections (suc left) section = section_text section ++ sections left (section + 1)

section_loop-sections :
    (left section : ℕ)
    → section + left ≡ 65300
    → section_loop (suc left) section ≡ some (sections left section)
unfolding section_loop sections
section_loop-sections zero section e = ground arith
section_loop-sections (suc left) section e =
    ground (arith, section_loop-sections left (section + 1) (omega arith))

-- The number that decimal digits stand for.
abbrev pub decimal : ℕ → Bytes → ℕ
decimal n [] = n
decimal n (c ∷ digits) = decimal (n * 10 + (c - b'0')) digits

-- A name of five digits has one number.
decimal-padded : (n : ℕ) → n < 100000 → decimal 0 (padded n) ≡ n
decimal-padded n h = omega arith

-- The loop ends; the fixture has the function and the 65300 sections in their order, and two numbers
-- of sections that are padded to the same digits are equal.
fixture_text-sections :
    (fixture_text ≡ some (head_text ++ sections 65300 0))
    × ((m n : ℕ) → m < 65300 → n < 65300 → padded m ≡ padded n → m ≡ n)
unfolding fixture_text
fixture_text-sections = (
  rw (fixture_text, section_loop-sections 65300 0 refl) refl,
  λ m n p q e.
      sym (decimal-padded m (omega arith)) ∙ ap (decimal 0) e ∙ decimal-padded n (omega arith),
)

-- ===== src/Mips/PageTable/Examples.antt =====
-- A directory and what is mapped in it, tried out.
use aim_mips.Prelude.{
  ℕ, ◌+◌, ◌*◌, ◌/◌, ◌≡◌, refl, [], ◌∷◌, arith, none, some, ◌==◌, ◌&&◌, if◌then◌else◌, success,
  eexist, page_size,
}
use aim_mips.Mips.PageTable.{
  Tables, write, pdx, ptx, getpagedesc, all_zero, pgfree, free_tables, free_intermediate_pgtable,
  first_pass, map_pages, pgtable_perm,
}
use aim_mips.Mips.PageTable.Index.{page_number}
use aim_mips.Mips.PageTable.Walk.{lookup, lookup-absent, IsTree, IsFresh, NotIn}
use aim_mips.Mips.PageTable.Map.{IsFilled, map_pages-IsFilled}
use aim_mips.Mips.PageTable.Failures.{map_pages-unchanged, map_pages-none}

abbrev pg : ℕ
pg = 0x8000_1000

abbrev nothing_mapped : Tables
nothing_mapped = record { words = λ p j. 0; avail = 0x2000 ∷ 0x3000 ∷ [] }

nothing_mapped-IsTree : IsTree pg nothing_mapped
unfolding IsFresh NotIn
nothing_mapped-IsTree = record {
  kernel = λ d h nz. absurd (nz refl);
  apart = λ d h e. omega arith;
  unique = λ d d' h h' nz e. absurd (nz refl);
  fresh = (
    omega arith,
    omega arith,
    omega arith,
    (λ d h e. omega arith),
    (omega arith, tt),
    (omega arith, omega arith, omega arith, (λ d h e. omega arith), tt, tt),
  );
}

-- One leaf table, with the second page of its 4 MB mapped, and no page left.
abbrev one_mapped : Tables
one_mapped = record {
  words = λ p j.
      if p == pg && j == 1 then 0x8000_2000 else if p == 0x8000_2000 && j == 1 then 0x117c0 else 0;
  avail = [];
}

one_mapped-IsTree : IsTree pg one_mapped
unfolding IsFresh
one_mapped-IsTree = record {
  kernel = λ d h nz. ground arith;
  apart = λ d h e. ground arith;
  unique = λ d d' h h' nz e. ground arith;
  fresh = tt;
}

page_number_example : 0x40_3000 / page_size ≡ pdx 0x40_3000 * 1024 + ptx 0x40_3000
page_number_example = page_number 0x40_3000 (omega arith)

map_pages-IsFilled_example :
    (s' : Tables) × (map_pages pg 0x40_0000 0x1_0000 0x2000 2 nothing_mapped ≡ some (success, s'))
    × IsFilled pg 0x1_0000 0x40_0000 2 (pgtable_perm 2) nothing_mapped s'
map_pages-IsFilled_example =
    map_pages-IsFilled pg 0x40_0000 0x1_0000 0x2000 2 nothing_mapped nothing_mapped-IsTree refl refl
      refl (omega arith) (omega arith) (omega arith)
      (λ va lo hi. lookup-absent pg va nothing_mapped refl)

conflict : map_pages pg 0x40_0000 0x1_0000 0x2000 2 one_mapped ≡ some (eexist, one_mapped)
unfolding map_pages first_pass getpagedesc free_intermediate_pgtable free_tables all_zero pdx ptx
    write pgfree
conflict = refl

map_pages-unchanged_example : lookup pg 0x40_0000 one_mapped ≡ lookup pg 0x40_0000 one_mapped
map_pages-unchanged_example =
    map_pages-unchanged pg 0x40_0000 0x1_0000 0x2000 2 eexist one_mapped one_mapped (omega arith)
      one_mapped-IsTree conflict refl 0x40_0000

absent : one_mapped.words pg (pdx 0x80_1000) ≡ 0
unfolding pdx
absent = refl

map_pages-none_example : map_pages pg 0x80_1000 0x1_0000 0x2000 2 one_mapped ≡ none
map_pages-none_example =
    map_pages-none pg 0x80_1000 0x1_0000 0x2000 2 one_mapped refl absent refl refl refl
      (omega arith) (omega arith) (omega arith) (omega arith)

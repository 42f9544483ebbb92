-- ===== src/Mips/PageOps/Examples.antt =====
-- Two mapped pages, translated, given other permissions, and unmapped.
use aim_mips.Prelude.{
  ℕ, ◌%◌, ◌^◌, ◌<◌, ◌≤◌, ◌≡◌, ◌≢◌, refl, [], ◌∷◌, arith, some, ◌==◌, ◌&&◌, if◌then◌else◌, success,
  page_size,
}
use aim_mips.Mips.PageTable.{
  Tables, pdx, ptx, pa2kva, write, clear_page, first_pass, second_pass, getpagedesc, pgtable_perm,
  map_pages,
}
use aim_mips.Mips.PageTable.Index.{pdx_lem}
use aim_mips.Mips.PageTable.Walk.{lookup, lookup-absent, IsTree, IsFresh, NotIn}
use aim_mips.Mips.PageOps.{Unmapped, unmap_pages, set_pages_perm, uva2kva}
use aim_mips.Mips.PageOps.Perm.{IsPermitted, set_pages_perm-IsPermitted}
use aim_mips.Mips.PageOps.Unmap.{IsUnmapped, unmap_pages-IsUnmapped, unmap_pages-stops}
use aim_mips.Mips.PageOps.Translate.{map_pages-uva2kva}

abbrev pg : ℕ
pg = 0x8000_1000

-- The first two pages of the second 4 MB, as `map_pages` enters them.
abbrev two_mapped : Tables
two_mapped = record {
  words = λ p j.
      if p == pg && j == 1
      then 0x8000_2000
      else if p == 0x8000_2000 && j == 0
      then 0x107c0
      else if p == 0x8000_2000 && j == 1
      then 0x117c0
      else 0;
  avail = [];
}

two_mapped-IsTree : IsTree pg two_mapped
unfolding IsFresh
two_mapped-IsTree = record {
  kernel = λ d h nz. ground arith;
  apart = λ d h e. ground arith;
  unique = λ d d' h h' nz e. ground arith;
  fresh = tt;
}

there : (va : ℕ) → 0x40_0000 ≤ va → va < 0x80_0000 → two_mapped.words pg (pdx va) ≢ 0
there va lo hi e =
    let one : pdx va ≡ 1 = omega (arith, pdx_lem va) in
    let e' : two_mapped.words pg 1 ≡ 0 = rw one at e in omega arith

set_pages_perm-IsPermitted_example :
    (t : Tables) × (set_pages_perm pg 0x40_0000 0x2000 4 two_mapped ≡ some (success, t))
    × IsPermitted pg 0x40_0000 2 4 two_mapped t
set_pages_perm-IsPermitted_example =
    set_pages_perm-IsPermitted pg 0x40_0000 0x2000 4 two_mapped two_mapped-IsTree refl refl
      (omega arith) (omega arith) (λ va lo hi. there va lo (omega arith))

unmap_pages-IsUnmapped_example :
    (u : Unmapped) × (unmap_pages pg 0x40_0000 page_size two_mapped ≡ some u)
    × IsUnmapped pg 0x40_0000 two_mapped u
unmap_pages-IsUnmapped_example =
    unmap_pages-IsUnmapped pg 0x40_0000 two_mapped (omega arith) two_mapped-IsTree (omega arith)
      (there 0x40_0000 (omega arith) (omega arith))

first : lookup pg 0x40_0000 two_mapped < 2 ^ 32
unfolding lookup pdx ptx
first = omega arith

second : lookup pg 0x40_1000 two_mapped % page_size ≢ 0
unfolding lookup pdx ptx
second = omega arith

unmap_pages-stops_example :
    (u : Unmapped) × (unmap_pages pg 0x40_0000 0x2000 two_mapped ≡ some u)
    × IsUnmapped pg 0x40_0000 two_mapped u
unmap_pages-stops_example =
    unmap_pages-stops pg 0x40_0000 0x2000 two_mapped (omega arith) two_mapped-IsTree (omega arith)
      (omega arith) (there 0x40_0000 (omega arith) (omega arith))
      (there 0x40_1000 (omega arith) (omega arith)) first second

abbrev nothing_mapped : Tables
nothing_mapped = record { words = λ p j. 0; avail = 0x2000 ∷ 0x3000 ∷ [] }

nothing_mapped-IsTree : IsTree pg nothing_mapped
unfolding IsFresh NotIn
nothing_mapped-IsTree = record {
  kernel = λ d h nz. absurd (nz refl);
  apart = λ d h e. omega arith;
  unique = λ d d' h h' nz e. absurd (nz refl);
  fresh = (
    omega arith,
    omega arith,
    omega arith,
    (λ d h e. omega arith),
    (omega arith, tt),
    (omega arith, omega arith, omega arith, (λ d h e. omega arith), tt, tt),
  );
}

-- The same two pages, mapped from nothing.
abbrev mapped : Tables
mapped = write 0x8000_2000 1 0x117c0 (
    write 0x8000_2000 0 0x107c0 (
      write pg 1 0x8000_2000
        (clear_page 0x8000_2000 (record nothing_mapped { avail = 0x3000 ∷ [] }))))

maps : map_pages pg 0x40_0000 0x1_0000 0x2000 2 nothing_mapped ≡ some (success, mapped)
unfolding map_pages first_pass second_pass getpagedesc pgtable_perm pdx ptx write clear_page
maps = refl

map_pages-uva2kva_example : uva2kva pg 0x40_1234 mapped ≡ some (pa2kva 0x1_1234)
map_pages-uva2kva_example =
    map_pages-uva2kva pg 0x40_0000 0x1_0000 0x2000 2 0x40_1234 nothing_mapped mapped
      nothing_mapped-IsTree refl refl refl (omega arith) (omega arith) (omega arith)
      (λ va lo hi. lookup-absent pg va nothing_mapped refl) maps (omega arith) (omega arith)

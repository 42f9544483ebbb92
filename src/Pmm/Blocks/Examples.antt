-- ===== src/Pmm/Blocks/Examples.antt =====
-- Runs of the page allocator, and its theorems at a pool of two blocks.
use aim_mips.Prelude.{ℕ, ◌≡◌, ◌↔◌, refl, true, false, some, none, [], ◌∷◌, arith, eof}
use aim_mips.Pmm.Blocks.{block, Pages, Pool, alloc, free}
use aim_mips.Pmm.Blocks.Chain.{IsPool}
use aim_mips.Pmm.Blocks.Alloc.{Granted, AllBelow, alloc-Granted, alloc-eof_iff}
use aim_mips.Pmm.Blocks.Free.{Returned, free-Returned}
use aim_mips.Pmm.Blocks.Canonical.{free_two, free-alloc, free_comm}

abbrev two_blocks : Pool
two_blocks = record {
  blocks = block 0x10_0000 0x3000 ∷ block 0x20_0000 0x1_0000 ∷ [];
  free_size = 0x1_3000;
}

two_blocks-IsPool : IsPool two_blocks
two_blocks-IsPool = omega arith

abbrev request : ℕ → Pages
request size = record { paddr = 0; size = size; flags = 0 }

abbrev region : ℕ → ℕ → Pages
region paddr size = record { paddr = paddr; size = size; flags = 0 }

-- The first block is too small and is passed over.
second_block :
    (alloc (request 0x4000) two_blocks).pool
    ≡ record { blocks = block 0x10_0000 0x3000 ∷ block 0x20_4000 0xc000 ∷ []; free_size = 0xf000 }
unfolding alloc
second_block = refl

-- A block that is used up leaves the chain.
whole_block :
    (alloc (request 0x3000) two_blocks).pool
    ≡ record { blocks = block 0x20_0000 0x1_0000 ∷ []; free_size = 0x1_0000 }
unfolding alloc
whole_block = refl

alloc-Granted_example : Granted 0x4000 two_blocks (alloc (request 0x4000) two_blocks)
unfolding alloc
alloc-Granted_example = alloc-Granted (request 0x4000) two_blocks two_blocks-IsPool refl

alloc-eof_iff_example :
    ((alloc (request 0x2_0000) two_blocks).code ≡ eof) ↔ AllBelow 0x2_0000 two_blocks.blocks
alloc-eof_iff_example = alloc-eof_iff (request 0x2_0000) two_blocks two_blocks-IsPool refl

-- The region between the blocks touches both, and all three become one.
gap_closed :
    free true (region 0x10_3000 0xf_d000) two_blocks
    ≡ some (record { blocks = block 0x10_0000 0x11_0000 ∷ []; free_size = 0x11_0000 })
unfolding free
gap_closed = refl

-- Without memory for the node, `free` panics; a size that is not in whole pages is dropped.
no_node : free false (region 0x10_3000 0x1000) two_blocks ≡ none
unfolding free
no_node = refl

part_page : free true (region 0x10_3000 0x800) two_blocks ≡ some two_blocks
unfolding free
part_page = refl

free-Returned_example :
    (pool' : Pool) × (free true (region 0x10_3000 0xf_d000) two_blocks ≡ some pool')
    × Returned (region 0x10_3000 0xf_d000) two_blocks pool'
free-Returned_example =
    free-Returned (region 0x10_3000 0xf_d000) two_blocks two_blocks-IsPool (omega arith)
      (omega arith)

free-alloc_example :
    free true (alloc (request 0x3000) two_blocks).pages (alloc (request 0x3000) two_blocks).pool
    ≡ some two_blocks
unfolding alloc
free-alloc_example = free-alloc (request 0x3000) two_blocks two_blocks-IsPool (omega arith) refl

free_comm_example :
    (u : Pool) × (free_two (region 0x10_3000 0x1000) (region 0x10_4000 0x1000) two_blocks ≡ some u)
    × (free_two (region 0x10_4000 0x1000) (region 0x10_3000 0x1000) two_blocks ≡ some u)
free_comm_example =
    free_comm (region 0x10_3000 0x1000) (region 0x10_4000 0x1000) two_blocks two_blocks-IsPool
      (omega arith) (omega arith) (omega arith)

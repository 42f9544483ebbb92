-- ===== src/Pmm/Calls/Examples.antt =====
-- Runs of the calls of pmm.c, and their theorems at a pool of one block.
use aim_mips.Prelude.{◌^◌, ◌≡◌, ◌⊎◌, refl, true, some, [], ◌∷◌, arith, success, eof}
use aim_mips.Pmm.Blocks.{block, Pages, Pool}
use aim_mips.Pmm.Blocks.Chain.{IsPool}
use aim_mips.Pmm.Memory.{Memory, pa2kva, pmemset, Filled, pmemset-Filled}
use aim_mips.Pmm.Calls.{Machine, Outcome, palloc, alloc_aligned_pages}
use aim_mips.Pmm.Calls.Aligned.{AlignedGrant, alloc_aligned_pages_lem}

abbrev zeroed : Memory
zeroed x = 0

abbrev one_block : Machine Pool
one_block = record {
  store = record { blocks = block 0x10_1000 0x4_0000 ∷ []; free_size = 0x4_0000 };
  memory = zeroed;
}

one_block-IsPool : IsPool one_block.store
one_block-IsPool = omega arith

abbrev request : Pages
request = record { paddr = 0; size = 0x2000; flags = 0 }

pmemset-Filled_example :
    (mem' : Memory) × (pmemset 0x1000 7 0x2000 zeroed ≡ some mem')
    × Filled (pa2kva 0x1000) 7 0x2000 zeroed mem'
pmemset-Filled_example = pmemset-Filled 0x1000 7 0x2000 zeroed (omega arith) refl

alloc_aligned_pages_lem_example :
    (o : Outcome Pool) × (alloc_aligned_pages (palloc true) request (2 ^ 14) one_block ≡ some o)
    × (((o.code ≡ eof) × (o.machine.store ≡ one_block.store))
        ⊎ ((o.code ≡ success)
            × AlignedGrant 0x2000 (2 ^ 14) one_block.store o.machine.store o.pages.paddr))
alloc_aligned_pages_lem_example =
    alloc_aligned_pages_lem request 14 one_block one_block-IsPool (omega arith) (omega arith)
      (omega arith) refl (omega arith) refl

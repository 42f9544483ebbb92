-- ===== src/Pmm.antt =====
-- The physical memory manager, kern/mm/pmm/palloc.c and kern/mm/pmm/pmm.c.
pub mod Blocks
pub mod Memory
pub mod Calls

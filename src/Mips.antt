-- ===== src/Mips.antt =====
-- The MIPS side of the kernel's memory: kern/arch/mips/pgtable.c.
pub mod PageTable
pub mod PageOps

-- ===== src/Uvm/Calls.antt =====
-- What kern/mm/uvm.c calls: the allocators of objects and of pages and the page tables.
use aim_mips.Prelude.{ℕ, Option, ℤ}

-- What kmalloc makes room for.
pub data Object : Type 0 where
  mm_object : Object
  vma_object : Object
  upages_object : Object

-- The state `S` is the kernel's. `kmalloc` answers a pointer, `alloc_pages` an address and `init_pgindex`
-- a page index, or none; `unmap_pages` answers how much it has unmapped, and from where.
pub record Kernel (S : Type 0) : Type 0 where
  pub kmalloc : Object → S → Option (ℕ × S)
  pub kfree : ℕ → S → S
  pub alloc_pages : ℕ → S → Option (ℕ × S)
  pub free_pages : ℕ → ℕ → S → S
  pub init_pgindex : S → Option (ℕ × S)
  pub destroy_pgindex : ℕ → S → S
  pub map_pages : ℕ → ℕ → ℕ → ℕ → ℕ → S → ℤ × S
  pub unmap_pages : ℕ → ℕ → ℕ → S → ℤ × ℕ × S
  pub set_pages_perm : ℕ → ℕ → ℕ → ℕ → S → ℤ × S
  -- From page to page, by their addresses.
  pub copy_page : ℕ → ℕ → ℕ → S → S

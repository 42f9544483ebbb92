-- ===== src/Pmm/Blocks.antt =====
-- The page allocator of kern/mm/pmm/palloc.c. The chain of `struct mem_block` between the sentries
-- `head` and `tail` is the list of its blocks in link order.
pub mod Chain
pub mod Alloc
pub mod Free
pub mod Canonical
mod Examples
use aim_mips.Prelude.{
  ℕ, ◌%◌, Bool, Option, none, some, List, [], ◌∷◌, leb, ltb, ◌==◌, ◌||◌, if◌then◌else◌, ℤ, eof,
  success, add64, sub64, page_size, not,
}
use mathlib.Core.Option

-- `struct pages` of include/aim/pmm.h.
pub record Pages : Type 0 where
  pub paddr : ℕ
  pub size : ℕ
  pub flags : ℕ

pub record Block : Type 0 where
  pub paddr : ℕ
  pub size : ℕ

abbrev pub block : ℕ → ℕ → Block
block p s = record { paddr = p; size = s }

-- The static state: the chain and `free_size`.
pub record Pool : Type 0 where
  pub blocks : List Block
  pub free_size : ℕ

pub record Allocated : Type 0 where
  pub code : ℤ
  pub pages : Pages
  pub pool : Pool

-- What is left of the block `b` when `size` bytes are taken from its front: it is unlinked when
-- nothing is.
pub carve : ℕ → Block → List Block → List Block
carve size b rest =
    let left = sub64 b.size size in
    if left == 0 then rest else block (add64 b.paddr size) left ∷ rest

-- The search for the first block that is large enough, with the address found and the new chain.
pub first_fit : ℕ → List Block → Option (ℕ × List Block)
unfolding carve
first_fit size [] = none
first_fit size (a ∷ rest) =
    if leb size a.size
    then some (a.paddr, carve size a rest)
    else Option.map (λ (p, found). (p, a ∷ found)) (first_fit size rest)

pub alloc : Pages → Pool → Allocated
unfolding first_fit
alloc pages pool =
    let refused : Allocated = record { code = eof; pages = pages; pool = pool } in
    if not (pages.size % page_size == 0) || ltb pool.free_size pages.size
    then refused
    else elim (first_fit pages.size pool.blocks) [
      | none ↦ refused
      | some (p, blocks) ↦ record {
        code = success;
        pages = record pages { paddr = p };
        pool = record { blocks = blocks; free_size = sub64 pool.free_size pages.size };
      }
    ]

-- The second merge of `free`: the new block `a` takes in its successor when that begins where `a`
-- ends.
pub merge_next : Block → List Block → List Block
merge_next a [] = a ∷ []
merge_next a (n ∷ rest) =
    if add64 a.paddr a.size == n.paddr
    then block a.paddr (add64 a.size n.size) ∷ rest
    else a ∷ n ∷ rest

-- Both merges, `p` being `a->prev`.
pub merge : Block → Block → List Block → List Block
unfolding merge_next
merge p a rest =
    if add64 p.paddr p.size == a.paddr
    then merge_next (block p.paddr (add64 p.size a.size)) rest
    else p ∷ merge_next a rest

-- The walk to the first block at or above `a`, with the block `p` that was passed last.
pub place_after : Block → Block → List Block → List Block
unfolding merge
place_after p a [] = merge p a []
place_after p a (i ∷ rest) =
    if leb a.paddr i.paddr then merge p a (i ∷ rest) else p ∷ place_after i a rest

pub place : Block → List Block → List Block
unfolding place_after
place a [] = merge_next a []
place a (i ∷ rest) = if leb a.paddr i.paddr then merge_next a (i ∷ rest) else place_after i a rest

-- `node` says whether `kmalloc` gives a node; `none` is the panic when it does not.
pub free : Bool → Pages → Pool → Option Pool
unfolding place
free node pages pool =
    if not (pages.size % page_size == 0)
    then some pool
    else if node
    then some (record {
      blocks = place (block pages.paddr pages.size) pool.blocks;
      free_size = add64 pool.free_size pages.size;
    })
    else none

pub get_free : Pool → ℕ
get_free pool = pool.free_size

pub page_allocator_init : Pool
page_allocator_init = record { blocks = []; free_size = 0 }

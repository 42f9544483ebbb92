-- ===== src/Mips/PageTable.antt =====
-- The two-level page tables of kern/arch/mips/pgtable.c. A page of 1024 words, the directory and a
-- leaf table alike, is kept by its kernel virtual address. `pgalloc` hands out the physical pages of
-- a list, and `pgfree` fills one with junk and puts it back.
pub mod Index
pub mod Walk
pub mod First
pub mod Map
pub mod Rollback
pub mod Failures
mod Examples
use Prim.Native.Nat.{bit_and, bit_or}
use aim_mips.Pmm.Memory.{kern_base, premap_addr}
use aim_mips.Prelude.{
  ℕ, zero, suc, ◌+◌, ◌-◌, ◌/◌, ◌%◌, ◌^◌, Bool, true, false, Option, none, some, List, [], ◌∷◌, ltb,
  leb, ◌==◌, ◌&&◌, ◌||◌, not, if◌then◌else◌, ℤ, success, enoent, enomem, eexist, einval, is_neg,
  add32, sub32, add64, page_size,
}

-- `pa2kva` and `kva2pa` of include/arch/mips/arch-mmu.h.
abbrev pub pa2kva : ℕ → ℕ
pa2kva pa = add32 pa kern_base

abbrev pub kva2pa : ℕ → ℕ
kva2pa kva = sub32 kva kern_base

-- `PDX` and `PTX` of include/arch/mips/pgtable.h.
unfoldable pub pdx : ℕ → ℕ
pdx va = bit_and (va / 2 ^ 22) 1023

unfoldable pub ptx : ℕ → ℕ
ptx va = bit_and (va / 2 ^ 12) 1023

-- `PTE_PADDR`, which clears the twelve flag bits.
pub pte_paddr : ℕ → ℕ
pte_paddr pte = bit_and pte 0xffff_f000

pub record Tables : Type 0 where
  pub words : ℕ → ℕ → ℕ
  pub avail : List ℕ

-- `page[i] = w`
unfoldable pub write : ℕ → ℕ → ℕ → Tables → Tables
write page i w s = record s { words = λ p j. if p == page && j == i then w else s.words p j }

-- `memset(page, 0, PAGE_SIZE)`
unfoldable pub clear_page : ℕ → Tables → Tables
clear_page page s = record s { words = λ p j. if p == page then 0 else s.words p j }

-- `struct pagedesc`, less the directory's own address.
pub record PageDesc : Type 0 where
  pub ptev : ℕ
  pub pdx : ℕ
  pub ptx : ℕ

pub record Got : Type 0 where
  pub code : ℤ
  pub desc : PageDesc
  pub tables : Tables

-- `__getpagedesc`, given the descriptor that it is to fill in.
unfoldable pub getpagedesc : ℕ → ℕ → Bool → PageDesc → Tables → Got
unfolding pdx ptx write clear_page
getpagedesc pgindex addr create pd s =
    let pd1 : PageDesc = record pd { pdx = pdx addr } in
    let leaf = s.words pgindex pd1.pdx in
    if not (leaf == 0)
    then record { code = success; desc = record pd1 { ptev = leaf; ptx = ptx addr }; tables = s }
    else if not create
    then record { code = enoent; desc = pd1; tables = s }
    else elim s.avail [
      | [] ↦ record { code = enomem; desc = pd1; tables = s }
      | paddr ∷ rest ↦
          let table = pa2kva paddr in
          record {
            code = success;
            desc = record pd1 { ptev = table; ptx = ptx addr };
            tables = write pgindex (pdx addr) table (clear_page table (record s { avail = rest }));
          }
    ]

-- Are the words from `i` on all zero?
pub all_zero : (ℕ → ℕ) → ℕ → ℕ → Bool
all_zero page zero i = true
all_zero page (suc n) i = page i == 0 && all_zero page n (i + 1)

-- A word of bytes JUNKBYTE.
abbrev pub junk_word : ℕ
junk_word = 0x2020_2020

-- `pgfree` of include/aim/pmm.h: free_pages fills the page with JUNKBYTE and gives it back.
unfoldable pub pgfree : ℕ → Tables → Tables
unfolding premap_addr
pgfree paddr s =
    let free = premap_addr paddr in
    record {
      words = λ p j. if p == pa2kva free then junk_word else s.words p j;
      avail = free ∷ s.avail;
    }

-- The loop of `__free_intermediate_pgtable` from directory entry `i` to `last`; `none` is a read
-- through a null table.
pub free_tables : ℕ → ℕ → ℕ → ℕ → Tables → Option Tables
free_tables zero pgindex i last s = none
free_tables (suc fuel) pgindex i last s =
    let table = s.words pgindex i in
    let s' =
      if all_zero (s.words table) 1024 0 then write pgindex i 0 (pgfree (kva2pa table) s) else s in
    let rest = free_tables fuel pgindex (i + 1) last s' in
    if not (leb i last) then some s else if table == 0 then none else rest

pub free_intermediate_pgtable : ℕ → ℕ → ℕ → Tables → Option Tables
unfolding free_tables pdx
free_intermediate_pgtable pgindex vaddr size s =
    free_tables 1025 pgindex (pdx vaddr) (pdx (sub32 (add32 vaddr size) page_size)) s

abbrev pub vma_write : ℕ
vma_write = 0x02

-- `__pgtable_perm`: valid, global and cacheable, and dirty if the area may be written.
unfoldable pub pgtable_perm : ℕ → ℕ
pgtable_perm vma_flags =
    bit_or (bit_or (bit_or 0x080 0x040) 0x600)
      (if not (bit_and vma_flags vma_write == 0) then 0x100 else 0)

pub record Pass : Type 0 where
  pub code : ℤ
  pub vcur : ℕ
  pub desc : PageDesc
  pub tables : Tables

-- The first pass of `map_pages`, on fuel: it makes leaf tables and looks for conflicts.
unfoldable pub first_pass : ℕ → ℕ → ℕ → ℕ → ℕ → PageDesc → Tables → Pass
unfolding getpagedesc
first_pass zero pgindex pcur pend vcur pd s = record {
  code = success;
  vcur = vcur;
  desc = pd;
  tables = s;
}
first_pass (suc fuel) pgindex pcur pend vcur pd s =
    let g = getpagedesc pgindex vcur true pd s in
    let stop = λ (code : ℤ).
      let r : Pass = record { code = code; vcur = vcur; desc = g.desc; tables = g.tables } in r in
    let rest =
      first_pass fuel pgindex (add64 pcur page_size) pend (add32 vcur page_size) g.desc g.tables in
    if not (ltb pcur pend)
    then record { code = success; vcur = vcur; desc = pd; tables = s }
    else if is_neg g.code
    then stop g.code
    else if not (g.tables.words g.desc.ptev g.desc.ptx == 0)
    then stop eexist
    else rest

-- The second pass fills in the entries.
unfoldable pub second_pass : ℕ → ℕ → ℕ → ℕ → ℕ → ℕ → PageDesc → Tables → Tables
unfolding getpagedesc write
second_pass zero pgindex pcur pend vcur perm pd s = s
second_pass (suc fuel) pgindex pcur pend vcur perm pd s =
    let g = getpagedesc pgindex vcur false pd s in
    let s' = write g.desc.ptev g.desc.ptx (bit_or (pcur % 2 ^ 32) perm) g.tables in
    let rest =
      second_pass fuel pgindex (add64 pcur page_size) pend (add32 vcur page_size) perm g.desc s' in
    if ltb pcur pend then rest else s

abbrev pub no_desc : PageDesc
no_desc = record { ptev = 0; pdx = 0; ptx = 0 }

unfoldable pub map_pages : ℕ → ℕ → ℕ → ℕ → ℕ → Tables → Option (ℤ × Tables)
map_pages pgindex vaddr paddr size flags s =
    let fuel = size / page_size + 1 in
    let p = first_pass fuel pgindex paddr (add64 paddr size) vaddr no_desc s in
    let undone = free_intermediate_pgtable pgindex vaddr (sub32 p.vcur vaddr) p.tables in
    let filled =
      second_pass fuel pgindex paddr (add64 paddr size) vaddr (pgtable_perm flags) p.desc
        p.tables in
    if not (paddr % page_size == 0) || (not (size % page_size == 0) || not (vaddr % page_size == 0))
    then some (einval, s)
    else if is_neg p.code
    then elim undone [ none ↦ none | some s' ↦ some (p.code, s') ]
    else some (success, filled)

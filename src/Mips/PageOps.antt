-- ===== src/Mips/PageOps.antt =====
-- The operations of kern/arch/mips/pgtable.c that look pages up, unmap them, and change their
-- permissions, over the tables of PageTable. A `panic` is `none`.
pub mod Translate
pub mod Unmap
pub mod Perm
mod Examples
use Prim.Native.Nat.{bit_and, bit_or}
use aim_mips.Prelude.{
  ℕ, zero, suc, ◌+◌, ◌-◌, ◌*◌, ◌/◌, ◌%◌, ◌^◌, Bool, true, false, Option, none, some, List, [], ◌∷◌,
  ltb, leb, ◌==◌, ◌&&◌, ◌||◌, not, if◌then◌else◌, ℤ, success, is_neg, add32, sub32, add64, sub64,
  page_size,
}
use aim_mips.Mips.PageTable.{
  Tables, write, clear_page, pgfree, pa2kva, kva2pa, pte_paddr, PageDesc, no_desc, Got, getpagedesc,
  free_intermediate_pgtable, pgtable_perm,
}

-- `init_pgindex`: none when there is no page.
pub init_pgindex : Tables → Option ℕ × Tables
init_pgindex s = elim s.avail [
  | [] ↦ (none, s)
  | paddr ∷ rest ↦ (some (pa2kva paddr), clear_page (pa2kva paddr) (record s { avail = rest }))
]

pub destroy_pgindex : ℕ → Tables → Tables
destroy_pgindex pgindex s = pgfree (kva2pa pgindex) s

pub record Unmapped : Type 0 where
  pub bytes : ℕ
  pub paddr : Option ℕ
  pub tables : Tables

-- The loop of `unmap_pages`, on fuel. `first` is what has been stored through `paddr`.
pub unmap_loop : ℕ → ℕ → ℕ → ℕ → ℕ → ℕ → PageDesc → Unmapped → Option Unmapped
unmap_loop zero pgindex vcur vend pcur bytes pd u = none
unmap_loop (suc fuel) pgindex vcur vend pcur bytes pd u =
    let g = getpagedesc pgindex vcur false pd u.tables in
    let entry = g.tables.words g.desc.ptev g.desc.ptx in
    let pcur' = if bytes == 0 then pte_paddr entry else pcur in
    let rest =
      unmap_loop fuel pgindex (add32 vcur page_size) vend (add64 pcur' page_size)
        (bytes + page_size) g.desc
        (record {
          bytes = bytes + page_size;
          paddr = if bytes == 0 then some pcur' else u.paddr;
          tables = write g.desc.ptev g.desc.ptx 0 g.tables;
        }) in
    if not (ltb vcur vend)
    then some u
    else if is_neg g.code
    then none
    else if not (bytes == 0) && not (entry == pcur)
    then some u
    else rest

-- The answer is the number of bytes unmapped.
pub unmap_pages : ℕ → ℕ → ℕ → Tables → Option Unmapped
unmap_pages pgindex vaddr size s =
    let r =
      unmap_loop (size / page_size + 2) pgindex vaddr (add32 vaddr size) 0 0 no_desc
        (record { bytes = 0; paddr = none; tables = s }) in
    elim r [
      | none ↦ none
      | some u ↦ elim (free_intermediate_pgtable pgindex vaddr u.bytes u.tables) [
        | none ↦ none
        | some s' ↦ some (record u { tables = s' })
      ]
    ]

-- The loop of `set_pages_perm`, on fuel.
pub set_pages_loop : ℕ → ℕ → ℕ → ℕ → ℕ → ℕ → PageDesc → Tables → Option Tables
set_pages_loop zero pgindex addr i len flags pd s = none
set_pages_loop (suc fuel) pgindex addr i len flags pd s =
    let g = getpagedesc pgindex addr false pd s in
    let entry = g.tables.words g.desc.ptev g.desc.ptx in
    let s' =
      write g.desc.ptev g.desc.ptx (bit_or (bit_and entry 0xffff_f000) (pgtable_perm flags))
        g.tables in
    let rest =
      set_pages_loop fuel pgindex (add32 addr page_size) (add32 i page_size) len flags g.desc s' in
    if not (ltb i len) then some s else if is_neg g.code then none else rest

pub set_pages_perm : ℕ → ℕ → ℕ → ℕ → Tables → Option (ℤ × Tables)
set_pages_perm pgindex addr len flags s =
    elim (set_pages_loop (len / page_size + 2) pgindex addr 0 len flags no_desc s) [
      | none ↦ none
      | some s' ↦ some (success, s')
    ]

-- `uva2kva`: none is the null pointer.
pub uva2kva : ℕ → ℕ → Tables → Option ℕ
uva2kva pgindex uaddr s =
    let g = getpagedesc pgindex uaddr false no_desc s in
    let pte = g.tables.words g.desc.ptev g.desc.ptx in
    if is_neg g.code
    then none
    else some (pa2kva (bit_or (pte_paddr pte) (bit_and uaddr (page_size - 1))))

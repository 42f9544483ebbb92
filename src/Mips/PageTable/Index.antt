-- ===== src/Mips/PageTable/Index.antt =====
-- What the index and address macros compute.
use Prim.Native.Nat.{bit_and, bit_or}
use aim_mips.Prelude.{
  ℕ, ◌+◌, ◌*◌, ◌/◌, ◌%◌, ◌^◌, ◌<◌, ◌≡◌, inl, inr, arith, page_size, not, Bool-cases, ◌==◌,
}
use aim_mips.Prelude.Bits.{bit_and-mask, bit_and-high, bit_or-add}
use aim_mips.Mips.PageTable.{pdx, ptx, pte_paddr, pgtable_perm, vma_write}

pub pdx_lem : (va : ℕ) → pdx va ≡ va / 2 ^ 22 % 2 ^ 10
unfolding pdx
pdx_lem va = bit_and-mask 10 (va / 2 ^ 22)

pub ptx_lem : (va : ℕ) → ptx va ≡ va / 2 ^ 12 % 2 ^ 10
unfolding ptx
ptx_lem va = bit_and-mask 10 (va / 2 ^ 12)

-- The two indices are the page number.
pub page_number : (va : ℕ) → va < 2 ^ 32 → va / page_size ≡ pdx va * 1024 + ptx va
page_number va h = omega (arith, pdx_lem va, ptx_lem va)

pub pte_paddr_lem : (pte : ℕ) → pte < 2 ^ 32 → pte_paddr pte ≡ pte / page_size * page_size
unfolding pte_paddr
pte_paddr_lem pte h = bit_and-high 12 20 pte (omega arith)

-- The permission bits stay below the page size and are never all clear.
pub pgtable_perm_bounds : (flags : ℕ) → (0 < pgtable_perm flags) × (pgtable_perm flags < page_size)
unfolding pgtable_perm
pgtable_perm_bounds flags = elim (Bool-cases (not (bit_and flags vma_write == 0))) [
  | inl e ↦ rw e (omega arith)
  | inr e ↦ rw e (omega arith)
]

-- An entry for a page-aligned address keeps the address and the bits apart.
pub entry_parts :
    (paddr perm : ℕ)
    → paddr < 2 ^ 32
    → paddr % page_size ≡ 0
    → perm < page_size
    → (bit_or paddr perm ≡ paddr + perm) × (pte_paddr (bit_or paddr perm) ≡ paddr)
entry_parts paddr perm h al small =
    let e : bit_or (paddr / 2 ^ 12 * 2 ^ 12) perm ≡ paddr / 2 ^ 12 * 2 ^ 12 + perm =
      bit_or-add 12 (paddr / 2 ^ 12) perm small in
    let d : paddr / 2 ^ 12 * 2 ^ 12 ≡ paddr = omega arith in
    let e' : bit_or paddr perm ≡ paddr + perm = rw d at e in
    (e', rw (e', pte_paddr_lem (paddr + perm) (omega arith)) (omega arith))

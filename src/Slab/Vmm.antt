-- ===== src/Slab/Vmm.antt =====
-- kmalloc, kfree and ksize of kern/mm/vmm/vmm.c, with the allocator of simple.c registered.
use Prim.Native.Nat.{bit_and}
use aim_mips.Prelude.{
  ℕ, ◌/◌, ◌^◌, ◌≤◌, ◌<◌, ◌≡◌, refl, inl, inr, false, ltb, ◌==◌, ◌&&◌, not, if◌then◌else◌, Option,
  none, some, List, [], ◌∷◌, arith, page_size, Bool-cases,
}
use aim_mips.Pmm.Memory.{premap_addr, kern_base, Memory, memset}
use aim_mips.Slab.{AllocedPage, Simple, alloc, free, find_page, holds, size_of}

-- GFP_ZERO
abbrev pub gfp_zero : ℕ
gfp_zero = 2

module _ {S : Type 0} (pgalloc : S → ℕ × S) (pgfree : ℕ → S → S) where
  -- Too large a size is a panic; so is a write through NULL.
  unfoldable pub kmalloc : ℕ → ℕ → Memory → Simple S → Option (ℕ × Memory × Simple S)
  kmalloc size flags mem st =
      if ltb (page_size / 2) size then none else elim (alloc pgalloc pgfree size st) [
        | none ↦ none
        | some (result, st1) ↦
            if bit_and flags gfp_zero == 0
            then some (result, mem, st1)
            else if result == 0 && not (size == 0)
            then none
            else some (result, memset result 0 size mem, st1)
      ]

  unfoldable pub kfree : ℕ → Simple S → Option (Simple S)
  kfree obj st = if not (obj == 0) then free pgalloc pgfree obj st else some st

unfoldable pub ksize : {S : Type 0} → ℕ → Simple S → ℕ
ksize obj st = if not (obj == 0) then size_of (premap_addr obj) st else 0

-- Every page is above `kern_base`, where pa2kva puts it.
pub IsHigh : List AllocedPage → Type 0
IsHigh [] = Unit
IsHigh (a ∷ as') = (kern_base ≤ a.paddr) × IsHigh as'

find_low :
    (obj : ℕ) (pages : List AllocedPage)
    → obj < kern_base
    → IsHigh pages
    → find_page (holds obj) pages ≡ none
unfolding find_page holds IsHigh
find_low obj [] low high = refl
find_low obj (a ∷ as') low high =
    let (above, rest) = high in
    let miss : holds obj a ≡ false = ground arith in
    rw (find_page, miss, find_low obj as' low rest) refl

-- ksize looks for the low address of the object, while the pages are known by their high ones: it answers 0
-- for every object.
pub ksize_zero :
    {S : Type 0} (obj : ℕ) (st : Simple S) → obj < 2 ^ 32 → IsHigh st.pages → ksize obj st ≡ 0
unfolding ksize size_of premap_addr
ksize_zero obj st word high = elim (Bool-cases (obj == 0)) [
  | inl e ↦ rw (ksize, e) refl
  | inr e ↦
      let low : premap_addr obj < kern_base = ground arith in
      rw (ksize, e, size_of, find_low (premap_addr obj) st.pages low high) refl
]

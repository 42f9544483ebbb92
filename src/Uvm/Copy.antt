-- ===== src/Uvm/Copy.antt =====
-- __copy_fill_uvm with copy_to_uvm, copy_from_uvm and fill_uvm, over a memory of bytes by virtual address.
-- `uva2kva` is the page table's translation to the kernel's addresses; `current` says whether the page
-- table is loaded, and then the code uses the user addresses. That the two addresses of a byte are one
-- byte is not in the model.
pub mod Filled
mod Examples
use Prim.Native.Nat.{bit_or, bit_and, min}
use aim_mips.Prelude.{
  ℕ, zero, suc, ◌+◌, ◌-◌, ◌*◌, ◌/◌, ◌%◌, ◌^◌, Bool, true, false, ◌&&◌, ltb, leb, ◌==◌,
  if◌then◌else◌, Option, none, some, List, ℤ, negsuc, success, efault, add32, sub32, page_size,
}
use aim_mips.Uvm.{Vma, find_continuous_vma}

abbrev pub Bytes : Type 0
Bytes = ℕ → ℕ

-- `-EACCES` (13)
abbrev pub eacces : ℤ
eacces = negsuc 12

-- `memset` and `memmove` as the regions that they write.
unfoldable pub set_bytes : ℕ → ℕ → ℕ → Bytes → Bytes
set_bytes dst c n m a = if leb dst a && ltb a (dst + n) then c else m a

unfoldable pub move_bytes : ℕ → ℕ → ℕ → Bytes → Bytes
move_bytes dst src n m a = if leb dst a && ltb a (dst + n) then m (src + (a - dst)) else m a

-- Which of the three callers: `fill`, or `touser`, or neither.
pub data Way : Type 0 where
  filling : ℕ → Way
  to_user : Way
  from_user : Way

unfoldable pub transfer : Way → ℕ → ℕ → ℕ → Bytes → Bytes
transfer (filling c) user vaddr n m = set_bytes user c n m
transfer to_user user vaddr n m = move_bytes user vaddr n m
transfer from_user user vaddr n m = move_bytes vaddr user n m

-- `PTR_ALIGN_BELOW`, `PTR_ALIGN_ABOVE` and `PTR_ALIGN_NEXT` to PAGE_SIZE.
unfoldable pub page_below : ℕ → ℕ
page_below x = bit_and x (2 ^ 32 - page_size)

unfoldable pub page_above : ℕ → ℕ
page_above x = add32 (bit_or (sub32 x 1) (page_size - 1)) 1

unfoldable pub page_next : ℕ → ℕ
page_next x = page_above (add32 x 1)

-- `for (; start < end; start = PTR_ALIGN_NEXT(start, PAGE_SIZE))`; `none` when the fuel has run out.
unfoldable pub copy_loop : ℕ → (ℕ → Option ℕ) → Way → ℕ → ℕ → ℕ → Bytes → Option (ℤ × Bytes)
copy_loop zero uva2kva way start end vaddr m = none
copy_loop (suc fuel) uva2kva way start end vaddr m = elim (ltb start end) [
  | false ↦ some (success, m)
  | true ↦ elim (uva2kva start) [
    | none ↦ some (eacces, m)
    | some kuvaddr ↦
        let l = min (page_next start) end - start in
        copy_loop fuel uva2kva way (page_next start) end (vaddr + l)
          (transfer way kuvaddr vaddr l m)
  ]
]

-- The outer `none` is a step past the list head.
unfoldable pub copy_fill_uvm :
    ℕ → List Vma → (ℕ → Option ℕ) → Bool → Way → ℕ → ℕ → ℕ → Bytes → Option (ℤ × Bytes)
copy_fill_uvm ghost vmas uva2kva current way uvaddr vaddr len m =
    let start_page = page_below uvaddr in
    let end_page = page_above (add32 uvaddr len) in
    elim (find_continuous_vma ghost start_page (sub32 end_page start_page) vmas) [
      | none ↦ none
      | some none ↦ some (efault, m)
      | some (some found) ↦
          if current
          then some (success, transfer way uvaddr vaddr len m)
          else copy_loop (len / page_size + 3) uva2kva way uvaddr (add32 uvaddr len) vaddr m
    ]

unfoldable pub copy_to_uvm :
    ℕ → List Vma → (ℕ → Option ℕ) → Bool → ℕ → ℕ → ℕ → Bytes → Option (ℤ × Bytes)
copy_to_uvm ghost vmas uva2kva current uvaddr vaddr len m =
    copy_fill_uvm ghost vmas uva2kva current to_user uvaddr vaddr len m

unfoldable pub copy_from_uvm :
    ℕ → List Vma → (ℕ → Option ℕ) → Bool → ℕ → ℕ → ℕ → Bytes → Option (ℤ × Bytes)
copy_from_uvm ghost vmas uva2kva current uvaddr vaddr len m =
    copy_fill_uvm ghost vmas uva2kva current from_user uvaddr vaddr len m

unfoldable pub fill_uvm :
    ℕ → List Vma → (ℕ → Option ℕ) → Bool → ℕ → ℕ → ℕ → Bytes → Option (ℤ × Bytes)
fill_uvm ghost vmas uva2kva current uvaddr c len m =
    copy_fill_uvm ghost vmas uva2kva current (filling c) uvaddr 0 len m
